-- ===== src/Spawn/Requests/Vfork.antt =====
-- `vfork` of ports/nacl-spawn/nacl_spawn.cc: the calls before, in between and behind it.
use webports.Prelude.{
  ℕ, ◌+◌, ◌<◌, ℤ, true, false, List, ◌∷◌, Option, none, some, Text, ◌≡◌, refl, ap, ◌∙◌,
}
use webports.Spawn.Fds.{max_file_descriptor, stash_file_descriptors, unstash_file_descriptors}
use webports.Spawn.Fds.Kept.{IsTable, unstash-stash}
use webports.Spawn.Requests.{
  Browser, Process, returned, jumped, spawn_request, spawnve_impl, jump_with, environ_or,
}
use webports.Spawn.Requests.Calls.{execve, vfork_before, vfork_after}

module _ {K F : Type 0} (b : Browser K) (holds : K → ℕ → Option F)
    (laws : IsTable b.calls holds) where
  -- If the calls are as documented: a process calls `vfork`, and its child calls `execve`, which
  -- sends a request that gives a process. Then the child jumps, and `vfork` returns this process and
  -- not 0 in the parent, which is no longer in `vfork`; and a descriptor that was open before is the
  -- same open file, whatever else became of the descriptors below the limit.
  pub vfork-execve :
      (p : Process) (path arg : Text) (argv : List Text) (envp : Option (List Text)) (pid : ℤ)
      (k k1 k2 : K) (fd : ℕ) (f : F)
      → p.vforking ≡ false
      → vfork_before b p k ≡ some (record p { vforking = true }, k1)
      → spawn_request b false
          (record p { vforking = true })
          path
          (arg ∷ argv)
          (environ_or b envp)
          k1
        ≡ returned pid (record p { vforking = true }) k2
      → fd < max_file_descriptor
      → holds k (fd + max_file_descriptor) ≡ none
      → holds k2 (fd + max_file_descriptor) ≡ holds k1 (fd + max_file_descriptor)
      → holds k fd ≡ some f
      → (q : Process) × (k3 : K) × (execve b
            (record p { vforking = true })
            (some path)
            (arg ∷ argv)
            envp
            k1
          ≡ jumped (record q { vforking = true }) k2)
        × (vfork_after b true (record q { vforking = true }) k2 ≡ (q, k3, pid))
        × (q.vforking ≡ false)
        × (holds k3 fd ≡ some f)
  unfolding execve spawnve_impl vfork_after vfork_before
  vfork-execve p path arg argv envp pid k k1 k2 fd f idle before sent l n same open_file =
      let q : Process = record { vforking = false; vfork_pid = pid } in
      let stashed : k1 ≡ stash_file_descriptors b.calls k = vfork_before-state p k k1 idle before in
      (
        q,
        unstash_file_descriptors b.calls k2,
        ap (jump_with b) sent,
        refl,
        refl,
        unstash-stash b.calls holds laws k k2 fd f l n
            (same ∙ ap (λ j. holds j (fd + max_file_descriptor)) stashed) open_file,
      )
    where
      vfork_before-state :
          (p : Process) (k k1 : K)
          → p.vforking ≡ false
          → vfork_before b p k ≡ some (record p { vforking = true }, k1)
          → k1 ≡ stash_file_descriptors b.calls k
      vfork_before-state p k k1 idle before =
          let g : ◌≡◌ {A = Option (Process × K)}
              (some (record p { vforking = true }, stash_file_descriptors b.calls k))
              (some (record p { vforking = true }, k1)) =
            rw idle at before in
          cc
