-- ===== src/StackWalk/Chain.antt =====
-- WalkStack on chains of frames that end, and on those that do not.
use mac_mini_dump.Prelude.{
  ℕ, zero, suc, ◌+◌, ◌<◌, ◌≡◌, ◌≢◌, refl, Bool, true, false, ◌&&◌, List, [], ◌∷◌, map, none, some,
  arith, ◌==◌, if◌then◌else◌, length,
}
use mac_mini_dump.Prelude.Words.{add64}
use mac_mini_dump.Outcome.{Outcome, fault, returns}
use mac_mini_dump.Regions.{MemoryRegions}
use mac_mini_dump.StackWalk.{
  Walker, Registers, deref_ptr, top_pc_no_stack_frame, walk_loop, walk_from, walk_stack,
}

module _ (w : Walker) where
  -- The frames from a frame pointer on: each holds the next frame pointer, and above it the return
  -- address; the last one's next frame pointer is 0, or cannot be read.
  pub data Chain : ℕ → List ℕ → Type 0 where
    last_frame : {bp : ℕ} → deref_ptr w.memory bp ≡ 0 → Chain bp []
    frame :
        {bp : ℕ} {ips : List ℕ} (next : ℕ)
        → deref_ptr w.memory bp ≡ next
        → next ≢ 0
        → Chain next ips
        → Chain bp (deref_ptr w.memory (add64 bp 8) ∷ ips)

  loop-Chain :
      (fuel : ℕ) (top : Bool) (lr index : ℕ) {bp : ℕ} {ips : List ℕ}
      → Chain bp ips
      → (top && index == 0) ≡ false
      → length ips < fuel
      → walk_loop w fuel top lr index bp ≡ some (map w.xpaci ips)
  unfolding walk_loop
  loop-Chain zero top lr index c o h = absurd (omega arith)
  loop-Chain (suc fuel) top lr index (last_frame e) o h = ground arith
  loop-Chain (suc fuel) top lr index (frame next e n c) o h =
      ground (arith, loop-Chain fuel top lr (index + 1) c)

  -- The round for a top function without a frame takes `lr`, and stays on the frame.
  loop_top :
      (fuel lr bp : ℕ) (ips : List ℕ)
      → Chain bp ips
      → bp ≢ 0
      → length ips < fuel
      → walk_loop w (suc fuel) true lr 0 bp ≡ some (w.xpaci lr ∷ map w.xpaci ips)
  unfolding walk_loop
  loop_top fuel lr bp ips c n h = ground (arith, loop-Chain fuel true lr 1 c refl h)

  -- When the lookup of the top function returns, on a chain of frames that ends, with enough fuel,
  -- the walk gives the program counter, the link register if the top function has no frame of its
  -- own, and the return address of every frame but the last, in order, each without its
  -- authentication bits. From a frame pointer 0 it gives the empty list.
  pub walk-Chain :
      (fuel : ℕ) (regions : MemoryRegions) (r : Registers) (ips : List ℕ) (top : Bool)
      → top_pc_no_stack_frame w regions r ≡ returns top
      → Chain r.base_pointer ips
      → length ips + 1 < fuel
      → walk_stack w fuel regions r ≡ (
          if r.base_pointer == 0
          then some []
          else some (map w.xpaci (r.instruction_pointer ∷ (if top then r.lr ∷ ips else ips))))
  unfolding walk_stack walk_from
  walk-Chain zero regions r ips top t c h = absurd (omega arith)
  walk-Chain (suc fuel) regions r ips top t c h =
      ground (
        arith,
        t,
        loop-Chain (suc fuel) false r.lr 0 c refl,
        loop_top fuel r.lr r.base_pointer ips c,
      )

  -- Frame pointers that are never 0 again, such as those on a cycle.
  abbrev pub Endless : (ℕ → Type 0) → Type 0
  Endless P = (bp : ℕ) → P bp → (deref_ptr w.memory bp ≢ 0) × P (deref_ptr w.memory bp)

  loop-Endless :
      (P : ℕ → Type 0)
      → Endless P
      → (fuel : ℕ) (top : Bool) (lr index bp : ℕ) → bp ≢ 0
      → P bp
      → walk_loop w fuel top lr index bp ≡ none
  unfolding walk_loop
  loop-Endless P k zero top lr index bp n p = refl
  loop-Endless P k (suc fuel) top lr index bp n p = ground (
    arith,
    k bp p,
    loop-Endless P k fuel top lr (index + 1) bp n p,
    loop-Endless P k fuel top lr (index + 1) (deref_ptr w.memory bp) (k bp p).0 (k bp p).1,
  )

  walk_from-Endless :
      (P : ℕ → Type 0) (fuel : ℕ) (r : Registers) (o : Outcome Bool)
      → Endless P
      → r.base_pointer ≢ 0
      → P r.base_pointer
      → walk_from w fuel r o ≡ none
  unfolding walk_from
  walk_from-Endless P fuel r fault k n p = refl
  walk_from-Endless P fuel r (returns top) k n p =
      rw (loop-Endless P k fuel top r.lr 0 r.base_pointer n p)

  -- From a frame pointer on a chain that never reaches 0, such as a frame that points to itself or
  -- to an earlier frame, the walk gives no result, whatever the fuel: it does not end, or the
  -- lookup of the top function is a fault before it begins.
  pub walk-Endless :
      (P : ℕ → Type 0) (fuel : ℕ) (regions : MemoryRegions) (r : Registers)
      → Endless P
      → r.base_pointer ≢ 0
      → P r.base_pointer
      → walk_stack w fuel regions r ≡ none
  unfolding walk_stack
  walk-Endless P fuel regions r k n p =
      ground (arith, walk_from-Endless P fuel r (top_pc_no_stack_frame w regions r) k n p)
