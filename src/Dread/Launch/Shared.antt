-- ===== src/Dread/Launch/Shared.antt =====
-- The free list when a stack is reused: ports/dreadthread/dread.c, `dthr_thread_launcher`.
use webports.Prelude.{
  ℕ, List, [], ◌∷◌, ◌≡◌, ◌≢◌, refl, ◌∙◌, ==_iff, inl, inr, ◌==◌, ==_refl, Bool-cases, ne→==,
}
use webports.Dread.World.{ok, World, Stack}
use webports.Dread.Launch.{scan_free, find_free_stack, bind_stack}

-- The search reads no more of a stack than its magic number and its size.
scan_free-same :
    (stacks later : ℕ → Stack) (size : ℕ) (xs : List ℕ) (best d : ℕ)
    → ((s : ℕ)
        → ((later s).magic ≡ (stacks s).magic) × ((later s).stack_size ≡ (stacks s).stack_size))
    → scan_free later size xs best d ≡ scan_free stacks size xs best d
unfolding scan_free
scan_free-same stacks later size [] best d h = refl
scan_free-same stacks later size (x ∷ xs) best d h =
    rw ((h x).0, (h x).1, scan_free-same stacks later size xs _ _ h) refl

bound-same :
    (th stk : ℕ) (w : World) (s : ℕ)
    → (((bind_stack th stk w).stacks s).magic ≡ (w.stacks s).magic)
      × (((bind_stack th stk w).stacks s).stack_size ≡ (w.stacks s).stack_size)
unfolding bind_stack
bound-same th stk w s = elim (Bool-cases (s == stk)) [
  | inl d ↦ let z = (==_iff s stk).0 d in rw (d, z) (refl, refl)
  | inr d ↦ rw d (refl, refl)
]

-- The launcher does not take a stack that it reuses off the free list: if the search finds a stack
-- for one thread, it finds the same stack again for the next thread of that size while the first is
-- still bound to it, and then both threads are bound to it.
pub bind_stack-shared :
    (th later size stk : ℕ) (w : World)
    → th ≢ later
    → find_free_stack size w ≡ ok stk
    → (find_free_stack size (bind_stack th stk w) ≡ ok stk)
      × (((bind_stack later stk (bind_stack th stk w)).threads th).stack ≡ stk)
      × (((bind_stack later stk (bind_stack th stk w)).threads later).stack ≡ stk)
unfolding find_free_stack bind_stack
bind_stack-shared th later size stk w n e = (
  scan_free-same w.stacks (bind_stack th stk w).stacks size w.free_stacks 0 _ (bound-same th stk w)
      ∙ e,
  rw (ne→== th later n, ==_refl) refl,
  rw ==_refl refl,
)
