-- ===== src/Spawn/Replies/Examples.antt =====
-- Runs of a request and its reply in ports/nacl-spawn/nacl_pp_helpers.c.
use webports.Prelude.{◌≤◌, true, false, some, none, ◌≡◌, ◌⊎◌, refl}
use webports.Spawn.Replies.{
  waiting, unlocking, storing, signalling, releasing, finished, nobody, requester, handler,
  requester_step, handler_step,
}
use webports.Spawn.Replies.Runs.{requests, handles, Run, here, next, at, waits, returned, Goes}
use webports.Spawn.Replies.Runs.Waits.{Run-waits}

-- The reply comes in the wait.
late_reply : Run 5 waits 6 (returned 5)
unfolding requester_step handler_step
late_reply =
    next {t = (at unlocking finished requester true (some 5))}
      (next {t = (at waiting finished nobody true (some 5))}
        (next {t = (at waiting releasing handler true (some 5))}
          (next {t = (at waiting signalling handler false (some 5))}
            (next {t = (at waiting storing handler false none)}
              (next {t = waits} here (handles refl)) (handles refl))
            (handles refl))
          (handles refl))
        (requests refl))
      (requests refl)

Run-waits_example : (6 ≤ 6) × (Goes 5 (returned 5) ⊎ (returned 5 ≡ returned 5))
Run-waits_example = Run-waits 5 6 (returned 5) late_reply
