-- ===== src/ThreadStates/Command.antt =====
-- Reading a thread command back, as a debugger does: a flavor, a count of words, and so many words,
-- again and again to the end of the command.
use mac_mini_dump.Prelude.{
  ℕ, zero, suc, ◌*◌, ◌≤◌, ◌<◌, ◌≡◌, refl, ap, sym, ◌∙◌, List, [], ◌∷◌, ◌++◌, Option, none, some,
  arith, leb, ◌^◌, ◌&&◌, true, false, Bool, length, length-append, take, drop,
}
use mathlib.Core.List.{append-nil}
use mac_mini_dump.Bytes.{le_bytes, from_le}
use mac_mini_dump.Outcome.{from_le-le_bytes, take_past, drop_past}
use mac_mini_dump.Builder.{
  Arch, x86_64, arm64, Builder, ThreadCommand, add_thread_command, thread_command_size,
}
use mac_mini_dump.ThreadStates.{
  gpr_kind, exc_kind, gpr_size, exc_size, RegisterSet, make_gpr, make_exc, set_bytes,
}

-- A set in front of those that follow.
read_set :
    (enough : Bool) (flavor : ℕ) (state : List ℕ) (rest : Option (List (ℕ × List ℕ)))
    → Option (List (ℕ × List ℕ))
read_set false flavor state rest = none
read_set true flavor state none = none
read_set true flavor state (some sets) = some ((flavor, state) ∷ sets)

-- The states of a command's rest. Each round takes at least 8 bytes.
unfoldable pub read_sets : ℕ → List ℕ → Option (List (ℕ × List ℕ))
unfolding read_set
read_sets zero bytes = none
read_sets (suc fuel) [] = some []
read_sets (suc fuel) (b ∷ bs) =
    let size = 4 * from_le (take 4 (drop 4 (b ∷ bs))) in
    let payload = drop 8 (b ∷ bs) in
    read_set (leb 8 (length (b ∷ bs)) && leb size (length payload)) (from_le (take 4 (b ∷ bs)))
      (take size payload) (read_sets fuel (drop size payload))

-- Behind the command's kind and size.
abbrev pub read_thread_command : List ℕ → Option (List (ℕ × List ℕ))
read_thread_command bytes = read_sets 3 (drop 8 bytes)

-- A register set whose count of words is that of its state.
abbrev WellSized : RegisterSet → Type 0
WellSized s = (s.kind < 2 ^ 32) × (s.n_word_count < 2 ^ 32) × (length s.state ≡ 4 * s.n_word_count)

long_enough : (a b c : ℕ) → 8 ≤ a → b ≤ c → (leb 8 a && leb b c) ≡ true
long_enough a b c h k = ground arith

read_step :
    (fuel a b c d e f g h kind n : ℕ) (state rest : List ℕ)
    → from_le (a ∷ b ∷ c ∷ d ∷ []) ≡ kind
    → from_le (e ∷ f ∷ g ∷ h ∷ []) ≡ n
    → length state ≡ 4 * n
    → read_sets (suc fuel) (a ∷ b ∷ c ∷ d ∷ e ∷ f ∷ g ∷ h ∷ (state ++ rest))
      ≡ read_set true kind state (read_sets fuel rest)
unfolding read_sets
read_step fuel a b c d e f g h kind n state rest p q r =
    let bytes : List ℕ = a ∷ b ∷ c ∷ d ∷ e ∷ f ∷ g ∷ h ∷ (state ++ rest) in
    ap
      (λ m.
        read_set (leb 8 (length bytes) && leb (4 * m) (length (state ++ rest)))
          (from_le (a ∷ b ∷ c ∷ d ∷ [])) (take (4 * m) (state ++ rest))
          (read_sets fuel (drop (4 * m) (state ++ rest))))
      q
    ∙ ap
        (λ k.
          read_set (leb 8 (length bytes) && leb (4 * n) (length (state ++ rest))) k
            (take (4 * n) (state ++ rest)) (read_sets fuel (drop (4 * n) (state ++ rest))))
        p
    ∙ ap
        (λ x.
          read_set (leb 8 (length bytes) && leb (4 * n) (length (state ++ rest))) kind x
            (read_sets fuel (drop (4 * n) (state ++ rest))))
        (take_past state rest (4 * n) r)
    ∙ ap
        (λ x.
          read_set (leb 8 (length bytes) && leb (4 * n) (length (state ++ rest))) kind state
            (read_sets fuel x))
        (drop_past state rest (4 * n) r)
    ∙ ap (λ x. read_set x kind state (read_sets fuel rest))
        (long_enough (length bytes) (4 * n) (length (state ++ rest)) (omega arith)
          (omega (arith, length-append state rest, r)))

read_sets-set :
    (fuel : ℕ) (s : RegisterSet) (rest : List ℕ)
    → WellSized s
    → read_sets (suc fuel) (set_bytes s ++ rest)
      ≡ read_set true s.kind s.state (read_sets fuel rest)
unfolding set_bytes le_bytes
read_sets-set fuel s rest w =
    read_step fuel _ _ _ _ _ _ _ _ s.kind s.n_word_count s.state rest
      (from_le-le_bytes 4 s.kind w.0) (from_le-le_bytes 4 s.n_word_count w.1) w.2

make_gpr-WellSized :
    (arch : Arch) (ts : List ℕ) → length ts ≡ gpr_size arch → WellSized (make_gpr arch ts)
unfolding make_gpr gpr_kind gpr_size
make_gpr-WellSized x86_64 ts h = (omega arith, omega arith, h)
make_gpr-WellSized arm64 ts h = (omega arith, omega arith, h)

make_exc-WellSized :
    (arch : Arch) (es : List ℕ) → length es ≡ exc_size arch → WellSized (make_exc arch es)
unfolding make_exc exc_kind exc_size
make_exc-WellSized x86_64 es h = (omega arith, omega arith, h)
make_exc-WellSized arm64 es h = (omega arith, omega arith, h)

read_sets-two :
    (gpr exc : RegisterSet)
    → WellSized gpr
    → WellSized exc
    → read_sets 3 (set_bytes gpr ++ set_bytes exc)
      ≡ some ((gpr.kind, gpr.state) ∷ (exc.kind, exc.state) ∷ [])
unfolding read_sets read_set
read_sets-two gpr exc w v =
    read_sets-set 2 gpr (set_bytes exc) w
    ∙ ap (read_set true gpr.kind gpr.state)
        (ap (read_sets 2) (sym (append-nil (set_bytes exc))) ∙ read_sets-set 1 exc [] v)

-- Reading the thread command that AddThreadCommand adds for the two states of a thread gives the
-- states back, each under its flavor, when they have the sizes of the architecture's structures.
pub thread_command-states :
    (arch : Arch) (ts es : List ℕ) (b : Builder)
    → length ts ≡ gpr_size arch
    → length es ≡ exc_size arch
    → (tc : ThreadCommand) × ((add_thread_command
          (set_bytes (make_gpr arch ts))
          (set_bytes (make_exc arch es))
          b).0.thread_cmds
        ≡ b.thread_cmds ++ tc ∷ [])
      × (length tc.bytes ≡ tc.cmdsize)
      × (read_thread_command tc.bytes ≡ some ((gpr_kind arch, ts) ∷ (exc_kind arch, es) ∷ []))
unfolding add_thread_command le_bytes thread_command_size make_gpr make_exc
thread_command-states arch ts es b h k = (
  _,
  refl,
  omega (arith, length-append (set_bytes (make_gpr arch ts)) (set_bytes (make_exc arch es))),
  read_sets-two (make_gpr arch ts) (make_exc arch es) (make_gpr-WellSized arch ts h)
      (make_exc-WellSized arch es k),
)
