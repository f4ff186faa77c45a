-- ===== src/Spawn/Setup/Mounts.antt =====
-- The mounts of ports/nacl-spawn/nacl_setup_env.c leave the variables as they were.
use webports.Prelude.{
  ℕ, pos, eq_int, true, false, Option, none, some, if◌then◌else◌, Text, codes, ◌≡◌, refl, ◌∙◌,
}
use webports.Spawn.Var.{
  PpVar, dict_create, dict_get, dict_set, dict_setstring, dict_getbool, dict_has_key, var_release,
}
use webports.Spawn.Apipe.{setup_anonymous_pipes}
use webports.Spawn.Setup.{
  Host, mkdir_missing, mount_available, mount_local_fs, mount_reply, request_mount, mountfs,
  is_null,
}
use webports.Spawn.Setup.Start.{
  mount_root, mount_at, make_directories, mount_http, mount_home, mount_html5,
}
use webports.Spawn.Setup.Variables.{Variable, IsHost, variable}

module _ {K : Type 0} (host : Host K) (x : Variable) (l : IsHost host x) where
  open host use {pp, library}

  abbrev value : K → Option Text
  value k = variable host x k

  dict_get-value : (d : PpVar) (key : Text) (k : K) → value (dict_get pp d key k).0 ≡ value k
  unfolding dict_get
  dict_get-value d key k =
      let k1 = (pp.var_from_utf8 key k).0 in
      let key_var = (pp.var_from_utf8 key k).1 in
      l.release key_var (pp.get d key_var k1).0 ∙ l.get d key_var k1 ∙ l.utf8 key k

  dict_setstring-value :
      (d : PpVar) (key v : Text) (k : K) → value (dict_setstring pp d key v k) ≡ value k
  unfolding dict_setstring dict_set
  dict_setstring-value d key v k =
      let k1 = (pp.var_from_utf8 v k).0 in
      let a = (pp.var_from_utf8 v k).1 in
      let k2 = (pp.var_from_utf8 key k1).0 in
      let b = (pp.var_from_utf8 key k1).1 in
      let k3 = pp.set d b a k2 in
      l.release a (pp.release b k3) ∙ l.release b k3 ∙ l.set d b a k2 ∙ l.utf8 key k1 ∙ l.utf8 v k

  dict_getbool-value :
      (d : PpVar) (key : Text) (k : K) → value (dict_getbool pp d key k).0 ≡ value k
  unfolding dict_getbool dict_has_key
  dict_getbool-value d key k =
      let k1 = (pp.var_from_utf8 key k).0 in
      let a = (pp.var_from_utf8 key k).1 in
      elim (pp.has_key d a k1)
        as (λ b.
          let r : K × Option PpVar =
            if b
            then (pp.release a (pp.get d a k1).0, some (pp.get d a k1).1)
            else (pp.release a k1, none) in
          value r.0 ≡ value k) [
            | true ↦ l.release a (pp.get d a k1).0 ∙ l.get d a k1 ∙ l.utf8 key k
            | false ↦ l.release a k1 ∙ l.utf8 key k
          ]

  mkdir_missing-value : (t : Text) (k : K) → value (mkdir_missing host t k) ≡ value k
  unfolding mkdir_missing
  mkdir_missing-value t k =
      elim (host.exists t k) as (λ b. value (if b then k else host.mkdir t k) ≡ value k) [
        | true ↦ refl
        | false ↦ l.mkdir t k
      ]

  dict_create-value : (k : K) → value (dict_create pp k).0 ≡ value k
  unfolding dict_create
  dict_create-value k = l.create k

  mount_available-value : (m : PpVar) (k : K) → value (mount_available host m k) ≡ value k
  unfolding mount_available var_release
  mount_available-value m k =
      l.release _ _
      ∙ l.release _ _
      ∙ l.release _ _
      ∙ l.post _ _
      ∙ dict_setstring-value _ _ _ _
      ∙ l.mount _ _
      ∙ dict_create-value _
      ∙ mkdir_missing-value _ _
      ∙ dict_get-value _ _ _
      ∙ dict_get-value _ _ _
      ∙ dict_get-value _ _ _

  -- What holds of the state that a call gives, if it gives one.
  abbrev pub Gives : K → Option K → Type 0
  Gives k none = Unit
  Gives k (some t) = value t ≡ value k

  mount_local_fs-Gives : (m : PpVar) (k : K) → Gives k (mount_local_fs host m k)
  unfolding mount_local_fs
  mount_local_fs-Gives m k =
      let r = dict_getbool pp m (codes "available") k in
      elim r.1
        as (λ o. Gives k (elim o [
          | none ↦ none
          | some true ↦ some (mount_available host m r.0)
          | some false ↦ some r.0
        ])) [
          | none ↦ tt
          | some true ↦ mount_available-value m r.0 ∙ dict_getbool-value m (codes "available") k
          | some false ↦ dict_getbool-value m (codes "available") k
        ]

  mount_reply-Gives : (m : PpVar) (k : K) → Gives k (mount_reply host m k)
  unfolding mount_reply var_release
  mount_reply-Gives m k =
      elim (mount_local_fs host m k)
          as (λ r.
            Gives k r
            → Gives k (elim r [
              | none ↦ none
              | some k1 ↦ some (
                  host.register_handler (codes "unmount")
                    (host.register_handler (codes "mount") (pp.release m k1)))
            ])) [ none ↦ λ g. tt | some t ↦ λ g. l.handler _ _ ∙ l.handler _ _ ∙ l.release _ _ ∙ g ]
        (mount_local_fs-Gives m k)

  Gives-after : (k t : K) (r : Option K) → value t ≡ value k → Gives t r → Gives k r
  Gives-after k t none e g = tt
  Gives-after k t (some u) e g = g ∙ e

  request_mount-Gives : (k : K) → Gives k (request_mount host k)
  unfolding request_mount
  request_mount-Gives k =
      let made = dict_create pp k in
      let k2 = dict_setstring pp made.1 (codes "command") (codes "nacl_mountfs") made.0 in
      let r = host.pipe_host.send_request made.1 k2 in
      let kept : value r.0 ≡ value k =
        l.send _ _ ∙ dict_setstring-value _ _ _ _ ∙ dict_create-value k in
      elim (is_null r.1) as (λ b. Gives k (if b then some r.0 else mount_reply host r.1 r.0)) [
        | true ↦ kept
        | false ↦ Gives-after k r.0 (mount_reply host r.1 r.0) kept (mount_reply-Gives r.1 r.0)
      ]

  pub mountfs-Gives : (k : K) → Gives k (mountfs host k)
  unfolding mountfs
  mountfs-Gives k =
      elim (library.getenv (codes "NACL_PROCESS") k)
        as (λ o. Gives k (elim o [ none ↦ some k | some naclprocess ↦ request_mount host k ])) [
          | none ↦ refl
          | some naclprocess ↦ request_mount-Gives k
        ]

  pub mount_root-value : (r : Option Text) (k : K) → value (mount_root host r k).0 ≡ value k
  unfolding mount_root
  mount_root-value none k = l.mount _ k
  mount_root-value (some r) k = l.mount _ k

  pub make_directories-value : (t : Text) (k : K) → value (make_directories host t k) ≡ value k
  unfolding make_directories
  make_directories-value t k =
      l.mkdir _ _
      ∙ l.mkdir _ _
      ∙ l.mkdir _ _
      ∙ l.mkdir _ _
      ∙ l.mkdir _ _
      ∙ l.mkdir _ _
      ∙ l.mkdir _ _

  pub mount_http-value : (k : K) → value (mount_http host k) ≡ value k
  unfolding mount_http
  mount_http-value k = l.mount _ k

  mount_home-value : (t : Text) (k : K) → value (mount_home host t k) ≡ value k
  unfolding mount_home
  mount_home-value t k =
      let k1 = host.mkdir (codes "/mnt/html5/home") k in
      elim (host.is_directory (codes "/mnt/html5/home") k1)
        as (λ b.
          value (
            if b
            then (mount_at host (codes "/home") t (codes "html5fs") (some (codes "type=PERSISTENT"))
                k1).0
            else k1)
          ≡ value k) [ true ↦ l.mount _ _ ∙ l.mkdir _ _ | false ↦ l.mkdir _ _ ]

  pub mount_html5-value :
      (r : Option Text) (t : Text) (k : K) → value (mount_html5 host r t k) ≡ value k
  unfolding mount_html5
  mount_html5-value (some r) t k = refl
  mount_html5-value none t k =
      let m =
        mount_at host (codes "/") (codes "/mnt/html5") (codes "html5fs")
          (some (codes "type=PERSISTENT")) (host.mkdir (codes "/mnt/html5") k) in
      let kept : value m.0 ≡ value k = l.mount _ _ ∙ l.mkdir _ _ in
      elim (eq_int m.1 (pos 0))
        as (λ b. value (if b then mount_home host t m.0 else m.0) ≡ value k) [
          | true ↦ mount_home-value t m.0 ∙ kept
          | false ↦ kept
        ]

  pub setup_anonymous_pipes-value :
      (k : K) → value (setup_anonymous_pipes host.pipe_host k).0 ≡ value k
  unfolding setup_anonymous_pipes
  setup_anonymous_pipes-value k =
      let r = host.pipe_host.register k in
      let m = host.pipe_host.mount (host.pipe_host.mkdir r.0) in
      let kept : value m.0 ≡ value k = l.mount_pipes _ ∙ l.mkdir_pipes _ ∙ l.register k in
      elim r.1
        as (λ b.
          let t : K × ℕ =
            if b then (if eq_int m.1 (pos 0) then (m.0, 0) else (m.0, 1)) else (r.0, 1) in
          value t.0 ≡ value k) [
            | true ↦
                elim (eq_int m.1 (pos 0))
                  as (λ b.
                    let t : K × ℕ = if b then (m.0, 0) else (m.0, 1) in value t.0 ≡ value k) [
                      | true ↦ kept
                      | false ↦ kept
                    ]
            | false ↦ l.register k
          ]
