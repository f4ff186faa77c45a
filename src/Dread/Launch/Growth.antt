-- ===== src/Dread/Launch/Growth.antt =====
-- ports/dreadthread/dread.c: how far the topmost stack grows before a launcher starts above it.
use webports.Prelude.{
  ℕ, zero, suc, ◌+◌, ◌-◌, ◌%◌, ◌<◌, ◌≤◌, List, [], ◌∷◌, ◌≡◌, ◌⊎◌, refl, inl, inr, Bool, arith, ltb,
  Bool-cases, ◌==◌, ==_refl,
}
use webports.Dread.World.{
  ok, abort, Run, ◌>>=◌, World, semaphore_magic, stack_extra, stack_magic, topmost_stack, newq_sema,
}
use webports.Dread.Semaphore.{release, wake}
use webports.Dread.Launch.{grow, new_topmost_thread, new_stack, launch_new}

-- With frames of one byte or more, fuel for as many of them as the distance has bytes, and no
-- number past 32 bits, the recursion of `dthr_new_topmost_thread` ends by its own test: the depth that
-- it reaches is past the requested size and the reserve, not above where it began, and past both by
-- less than one frame unless it began there.
pub grow_bounds :
    (fuel frame base wanted pos : ℕ)
    → 0 < frame
    → base ≤ pos
    → base + wanted + stack_extra < pos + fuel
    → wanted + stack_extra + frame < 0x1_0000_0000
    → pos < base + 0x1_0000_0000
    → (base + wanted + stack_extra ≤ grow fuel frame base wanted pos)
      × (pos ≤ grow fuel frame base wanted pos)
      × ((grow fuel frame base wanted pos ≡ pos)
          ⊎ (grow fuel frame base wanted pos < base + wanted + stack_extra + frame))
unfolding grow
grow_bounds zero frame base wanted pos f b h w q = (omega arith, omega arith, inl refl)
grow_bounds (suc fuel) frame base wanted pos f b h w q =
    let m : (pos + 0x1_0000_0000 - base) % 0x1_0000_0000 ≡ pos - base = omega arith in
    let n : (wanted + stack_extra) % 0x1_0000_0000 ≡ wanted + stack_extra = omega arith in
    elim (Bool-cases (ltb (pos - base) (wanted + stack_extra))) [
      | inl d ↦
          let ih =
            grow_bounds fuel frame base wanted (pos + frame) f (omega arith) (omega arith) w
              (ground arith) in
          rw (m, n, d) (ih.0, grind arith, inr (elim ih.2 [ inl e ↦ ground arith | inr e ↦ e ]))
      | inr d ↦ rw (m, n, d) (ground arith, ground arith, inl refl)
    ]

-- The package gives up, or stack `stk` extends from `base` over `size` bytes, and what runs next
-- is deeper than its end and the reserve.
abbrev pub Clears : ℕ → ℕ → ℕ → Run World → Type 0
Clears stk base size (ok w) =
    ((w.stacks stk).stack_base ≡ base)
    × ((w.stacks stk).stack_top ≡ base + size)
    × ((w.stacks stk).stack_top + stack_extra ≤ w.depth)
Clears stk base size (abort _) = Unit

-- The same before the topmost stack grows, when its depth is `depth`.
abbrev Begins : ℕ → ℕ → ℕ → ℕ → Run World → Type 0
Begins stk base size depth (ok w) =
    ((w.stacks stk).stack_base ≡ base)
    × ((w.stacks stk).stack_top ≡ base + size)
    × (w.depth ≡ depth)
Begins stk base size depth (abort _) = Unit

wake-Begins :
    (stk base size depth s : ℕ) (q : List ℕ) (w : World)
    → Begins stk base size depth (ok w)
    → Begins stk base size depth (ok (wake s q w))
unfolding wake
wake-Begins stk base size depth s [] w h = h
wake-Begins stk base size depth s (_ ∷ _) w h = h

release-Begins :
    (stk base size depth s : ℕ) (w : World)
    → Begins stk base size depth (ok w)
    → Begins stk base size depth (release s w)
unfolding release
release-Begins stk base size depth s w h =
    elim (Bool-cases ((w.semaphores s).magic == semaphore_magic)) [
      | inl d ↦ rw d (wake-Begins stk base size depth s (w.semaphores s).threadq _ h)
      | inr d ↦ rw d tt
    ]

module _ (malloc : ℕ → Bool) (frame launcher_frame : ℕ) (some_frame : 0 < frame) where
  topmost-Clears :
      (stk base size : ℕ) (w : World)
      → base ≤ w.depth
      → base + size + stack_extra + frame < 0x1_0000_0000
      → w.depth + frame < base + 0x1_0000_0000
      → Begins stk base size w.depth (ok w)
      → Clears stk base size (new_topmost_thread malloc frame launcher_frame stk size w)
  unfolding new_topmost_thread
  topmost-Clears stk base size w b small near h =
      elim (Bool-cases ((w.stacks stk).magic == stack_magic)) [
        | inl d ↦
            let g =
              grow_bounds (size + stack_extra + 1) frame base size (w.depth + frame) some_frame
                (omega arith) (omega arith) (omega arith) (omega arith) in
            rw (d, ==_refl, h.0) (refl, h.1, rw h.1 (let k = g.0 in omega arith))
        | inr d ↦ rw d tt
      ]

  onward :
      (stk base size depth : ℕ) (m : Run World)
      → base ≤ depth
      → base + size + stack_extra + frame < 0x1_0000_0000
      → depth + frame < base + 0x1_0000_0000
      → Begins stk base size depth m
      → Clears stk base size (m >>= new_topmost_thread malloc frame launcher_frame stk size)
  onward stk base size depth (ok w) b small near h =
      topmost-Clears stk base size w (rw h.2 b) small (rw h.2 near) (h.0, h.1, refl)
  onward stk base size depth (abort _) b small near h = tt

  -- If the launcher's frame is no shallower than the topmost stack's base, and the addresses from
  -- there over the size, the reserve and a frame, and over the launcher's depth and a frame, do not
  -- pass 2 ^ 32, a thread's new stack
  -- begins at that base and has the requested size, and the launcher that starts above it, which
  -- gives the topmost stack its next base, is past its end and the reserve: stacks do not overlap.
  pub launch_new-Clears :
      (th : ℕ) (w : World)
      → (w.stacks topmost_stack).stack_base ≤ w.depth
      → (w.stacks topmost_stack).stack_base + (w.threads th).stack_size + stack_extra + frame
        < 0x1_0000_0000
      → w.depth + frame < (w.stacks topmost_stack).stack_base + 0x1_0000_0000
      → Clears
          (w.stacks_made + 2)
          (w.stacks topmost_stack).stack_base
          (w.threads th).stack_size
          (launch_new malloc frame launcher_frame th (w.threads th).stack_size w)
  unfolding launch_new new_stack
  launch_new-Clears th w b small near =
      let base = (w.stacks topmost_stack).stack_base in
      let top : (base + (w.threads th).stack_size) % 0x1_0000_0000
          ≡ base + (w.threads th).stack_size =
        omega arith in
      elim (Bool-cases (malloc w.mallocs)) [
        | inl d ↦ rw d (
            onward (w.stacks_made + 2) (w.stacks topmost_stack).stack_base (w.threads th).stack_size
              w.depth (release newq_sema (new_stack th (w.stacks_made + 2) w)) b small near
              (release-Begins (w.stacks_made + 2) (w.stacks topmost_stack).stack_base
                (w.threads th).stack_size w.depth newq_sema (new_stack th (w.stacks_made + 2) w)
                (rw ==_refl (refl, top, refl))))
        | inr d ↦ rw d tt
      ]
