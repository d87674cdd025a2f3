-- ===== src/Modules/Parse.antt =====
-- ModuleList.cpp: the loops over the load commands, against load commands that are laid out one
-- behind the other.
use mac_mini_dump.Prelude.{
  ℕ, suc, ◌+◌, ◌<◌, ◌≡◌, refl, ◌∙◌, ap, List, [], ◌∷◌, ◌++◌, arith, length, drop, length-append,
}
use mathlib.Core.List.{append_assoc}
use mac_mini_dump.Prelude.Words.{u32_mod}
use mac_mini_dump.Bytes.{le_bytes, length-le_bytes}
use mac_mini_dump.Outcome.{returns, ◌>>=◌, drop_past}
use mac_mini_dump.Modules.{
  SegmentInfo, segments_from, get_segments_of_module, uuid_from, get_uuid_of_module,
}
use mac_mini_dump.Modules.Commands.{
  LoadCommand, segment, uuid_of, other, payload, command_bytes, commands_bytes, Proper, AllProper,
  kept_segments, first_uuid, other_test, field-past, read_cmd, read_cmdsize, skip_command,
  segment_info-command, uuid-command,
}

-- What one round of the loop keeps.
abbrev kept : LoadCommand → List SegmentInfo
kept c = kept_segments (c ∷ [])

segments_round :
    (n : ℕ) (c : LoadCommand) (after : List ℕ)
    → Proper c
    → 8 + length (payload c) < u32_mod
    → segments_from (suc n) (command_bytes c ++ after)
      ≡ (segments_from n after >>= λ rest. returns (kept c ++ rest))
unfolding segments_from
segments_round n (segment name vmaddr vmsize tail) after p h =
    let c = segment name vmaddr vmsize tail in
    rw (
      read_cmd c after p,
      segment_info-command name vmaddr vmsize tail after p,
      read_cmdsize c after h,
      skip_command c after,
    )
segments_round n (uuid_of uuid tail) after p h =
    let c = uuid_of uuid tail in
    rw (read_cmd c after p, read_cmdsize c after h, skip_command c after)
segments_round n (other cmd body) after p h =
    let c = other cmd body in
    rw (read_cmd c after p, read_cmdsize c after h, skip_command c after, other_test cmd 0x19 p.1)

kept_segments-cons :
    (c : LoadCommand) (commands : List LoadCommand)
    → kept c ++ kept_segments commands ≡ kept_segments (c ∷ commands)
kept_segments-cons (segment name vmaddr vmsize tail) commands = refl
kept_segments-cons (uuid_of uuid tail) commands = refl
kept_segments-cons (other cmd body) commands = refl

-- On load commands that stand one behind the other, the loop over them keeps the name, the address
-- and the size of each segment, in order.
segments_from-commands :
    (commands : List LoadCommand) (rest : List ℕ)
    → AllProper commands
    → segments_from (length commands) (commands_bytes commands ++ rest)
      ≡ returns (kept_segments commands)
unfolding segments_from
segments_from-commands [] rest p = refl
segments_from-commands (c ∷ commands) rest p =
    ap (segments_from (suc (length commands)))
      (append_assoc (command_bytes c) (commands_bytes commands) rest)
    ∙ segments_round (length commands) c (commands_bytes commands ++ rest) p.0 p.1
    ∙ ap (λ m. m >>= λ found. returns (kept c ++ found)) (segments_from-commands commands rest p.2)
    ∙ ap returns (kept_segments-cons c commands)

uuid_round :
    (n : ℕ) (c : LoadCommand) (commands : List LoadCommand) (after : List ℕ)
    → Proper c
    → 8 + length (payload c) < u32_mod
    → uuid_from n after ≡ returns (first_uuid commands)
    → uuid_from (suc n) (command_bytes c ++ after) ≡ returns (first_uuid (c ∷ commands))
unfolding uuid_from
uuid_round n (segment name vmaddr vmsize tail) commands after p h e =
    let c = segment name vmaddr vmsize tail in
    rw (read_cmd c after p, read_cmdsize c after h, skip_command c after, e)
uuid_round n (uuid_of uuid tail) commands after p h e =
    let c = uuid_of uuid tail in rw (read_cmd c after p, uuid-command uuid tail after p)
uuid_round n (other cmd body) commands after p h e =
    let c = other cmd body in
    rw
      (read_cmd c after p, read_cmdsize c after h, skip_command c after, other_test cmd 0x1b p.2, e)

uuid_from-commands :
    (commands : List LoadCommand) (rest : List ℕ)
    → AllProper commands
    → uuid_from (length commands) (commands_bytes commands ++ rest) ≡ returns (first_uuid commands)
unfolding uuid_from
uuid_from-commands [] rest p = refl
uuid_from-commands (c ∷ commands) rest p =
    ap (uuid_from (suc (length commands)))
      (append_assoc (command_bytes c) (commands_bytes commands) rest)
    ∙ uuid_round (length commands) c commands (commands_bytes commands ++ rest) p.0 p.1
        (uuid_from-commands commands rest p.2)

-- On a module of a 32-byte header with the number of its load commands at 16, and these load
-- commands one behind the other, GetSegmentsOfModule keeps the name, the address and the size of
-- each segment in order, and GetUUIDOfModule the bytes of the first LC_UUID, or 16 zeros.
pub parse-commands :
    (start end rest : List ℕ) (commands : List LoadCommand)
    → length start ≡ 16
    → length end ≡ 12
    → length commands < u32_mod
    → AllProper commands
    → let raw =
        start ++ (le_bytes 4 (length commands) ++ (end ++ (commands_bytes commands ++ rest))) in
      (get_segments_of_module raw ≡ returns (kept_segments commands))
      × (get_uuid_of_module raw ≡ returns (first_uuid commands))
unfolding get_segments_of_module get_uuid_of_module
parse-commands start end rest commands h k w p = (
  rw (
    field-past start after_count 16 4 (length commands) h (omega arith),
    behind_header,
    segments_from-commands commands rest p,
  ),
  rw (
    field-past start after_count 16 4 (length commands) h (omega arith),
    behind_header,
    uuid_from-commands commands rest p,
  ),
)
  where
    after_count : List ℕ
    after_count = end ++ (commands_bytes commands ++ rest)

    header : List ℕ
    header = start ++ (le_bytes 4 (length commands) ++ end)

    laid_out :
        start ++ (le_bytes 4 (length commands) ++ after_count)
        ≡ header ++ (commands_bytes commands ++ rest)
    laid_out = simp append_assoc

    behind_header :
        drop 32 (start ++ (le_bytes 4 (length commands) ++ after_count))
        ≡ commands_bytes commands ++ rest
    behind_header =
        ap (drop 32) laid_out
        ∙ drop_past header (commands_bytes commands ++ rest) 32 (
            omega (
              arith,
              length-append start (le_bytes 4 (length commands) ++ end),
              length-append (le_bytes 4 (length commands)) end,
              length-le_bytes 4 (length commands),
            ))
