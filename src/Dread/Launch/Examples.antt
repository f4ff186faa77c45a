-- ===== src/Dread/Launch/Examples.antt =====
-- The theorems on the launcher and on events, ports/dreadthread/dread.c, at concrete worlds.
use webports.Prelude.{ℕ, ◌+◌, ◌∷◌, [], ◌≡◌, ◌==◌, refl, arith, if◌then◌else◌, none}
use webports.Dread.World.{World, ok}
use webports.Dread.World.{Stack, stack_magic, event_magic, thread_magic, event_wait}
use webports.Dread.Event.{eventq_to_runq}
use webports.Dread.Event.Order.{Moved, eventq_to_runq_lem}
use webports.Dread.Launch.{grow, end_of_stack, find_free_stack, scan_free, bind_stack}
use webports.Dread.Launch.Fit.{IsBestFit, excess, find_free_stack-IsBestFit}
use webports.Dread.Launch.Shared.{bind_stack-shared}
use webports.Dread.Tests.{blank}

-- Stacks 2 to 4 are free, and stack 3 is the smallest that is larger than 512 bytes.
abbrev stack_of : ℕ → ℕ → Stack
stack_of size base = record {
  magic = stack_magic;
  stack_size = size;
  stack_base = base;
  stack_top = base + size;
  thread = 0;
  regs = none;
  base = none;
}

abbrev three_free : World
three_free = record blank {
  free_stacks = 2 ∷ 3 ∷ 4 ∷ [];
  stacks = λ s. if s == 3 then stack_of 1024 9000 else stack_of 4096 20000;
}

three_free_run : find_free_stack 512 three_free ≡ ok 3
unfolding find_free_stack scan_free
three_free_run = refl

find_free_stack-IsBestFit_example :
    (r : ℕ) × (find_free_stack 512 three_free ≡ ok r)
    × IsBestFit (excess three_free.stacks 512) (2 ∷ 3 ∷ 4 ∷ []) r
find_free_stack-IsBestFit_example =
    find_free_stack-IsBestFit 512 three_free (refl, (refl, (refl, tt)))

bind_stack-shared_example :
    (find_free_stack 512 (bind_stack 5 3 three_free) ≡ ok 3)
    × (((bind_stack 6 3 (bind_stack 5 3 three_free)).threads 5).stack ≡ 3)
    × (((bind_stack 6 3 (bind_stack 5 3 three_free)).threads 6).stack ≡ 3)
bind_stack-shared_example = bind_stack-shared 5 6 512 3 three_free (λ e. omega arith) three_free_run

-- Threads 1 and 2 wait for event 1.
abbrev two_wait : World
two_wait = record blank {
  runq = 4 ∷ [];
  events = λ _. record { magic = event_magic; threadq = 1 ∷ 2 ∷ [] };
  threads = λ t. record {
    magic = thread_magic;
    fn = 0;
    fn_arg = 0;
    stack_size = 0;
    state = event_wait;
    stack = t + 2;
    on_exit = [];
    exit_value = 0;
  };
}

eventq_to_runq_lem_example : Moved 1 (4 ∷ []) (1 ∷ []) (2 ∷ []) (eventq_to_runq 1 1 two_wait)
eventq_to_runq_lem_example = eventq_to_runq_lem 1 1 two_wait refl (refl, (refl, tt))

-- Stacks 3 and 2 are active, and the depth 9500 lies on stack 3.
abbrev two_active : World
two_active = record three_free { active_stacks = 3 ∷ 2 ∷ [] }

-- A size of 2 ^ 32 - 1 wraps around with the reserve: the stack grows by that less one byte, up to
-- whole frames, and ends before its base.
wrapped_size : (grow 200 64 1000 0xffff_ffff 1064 ≡ 7144) × (end_of_stack 1000 0xffff_ffff ≡ 999)
unfolding grow
wrapped_size = (refl, refl)
