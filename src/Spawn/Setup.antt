-- ===== src/Spawn/Setup.antt =====
-- ports/nacl-spawn/nacl_setup_env.c: the file systems of a new process and the messages that mount
-- them. What is printed is left out.
pub mod Start
pub mod Variables
pub mod Mounts
pub mod Inherited
pub mod Defaults
mod Examples
use webports.Prelude.{
  ℕ, ℤ, pos, eq_int, Bool, true, false, not, ◌&&◌, List, [], ◌∷◌, Option, none, some, if◌then◌else◌,
  Text, codes,
}
use webports.Spawn.Var.{
  PpVar, null, string, dictionary, Pepper, var_release, dict_create, dict_get, dict_setstring,
  dict_getbool,
}
use webports.Spawn.Pipes.{
  Library, Restored, restored, failed, exhausted, getenv_as_int, restore_pipes,
}
use webports.Spawn.Apipe.{PipeHost, setup_anonymous_pipes}

-- The arguments of `mount`, with `data` as options; its flags are 0 in each call.
pub record Mount : Type 0 where
  pub source : Text
  pub target : Text
  pub filesystemtype : Text
  pub options : Option Text

-- `nspawn_pid` and `nspawn_ppid`.
pub record Pids : Type 0 where
  pub pid : ℤ
  pub ppid : ℤ

-- What the code calls, on the state `K`. `setenv` is the call that does not override; `exists` says
-- that `stat` succeeds, `is_directory` that it succeeds on a directory; `filesystem_data` prints
-- "filesystem_resource=%d\n". `fuel` is that of `restore_pipes`.
pub record Host (K : Type 0) : Type 0 where
  pub pp : Pepper K
  pub pipe_host : PipeHost K
  pub library : Library K
  pub has_instance : Bool
  pub umount : Text → K → K × ℤ
  pub mount : Mount → K → K × ℤ
  pub mkdir : Text → K → K
  pub exists : Text → K → Bool
  pub is_directory : Text → K → Bool
  pub setenv : Text → Text → K → K
  pub chdir : Text → K → K × ℤ
  pub setlocale : K → K
  pub var_to_resource : PpVar → K → ℤ
  pub var_to_utf8 : PpVar → K → Text
  pub filesystem_data : ℤ → Text
  pub post_message : PpVar → K → K
  pub register_handler : Text → K → K
  pub arch : Text
  pub fuel : ℕ

-- A call ends, or an assertion fails in it, or the fuel is used up.
pub data Setup (K : Type 0) : Type 0 where
  ends : ℤ → Pids → K → Setup K
  failed_assert : Setup K
  no_fuel : Setup K

abbrev pub is_dictionary : PpVar → Bool
is_dictionary (dictionary n) = true
is_dictionary _ = false

abbrev pub is_string : PpVar → Bool
is_string (string n) = true
is_string _ = false

abbrev pub is_null : PpVar → Bool
is_null null = true
is_null _ = false

abbrev pub or_text : Text → Option Text → Text
or_text default none = default
or_text default (some value) = value

module _ {K : Type 0} (host : Host K) where
  open host use {pp, mount, mkdir, library}

  -- The status of a mount or unmount.
  abbrev status_text : ℤ → Text
  status_text result = if eq_int result (pos 0) then codes "success" else codes "fail"

  unfoldable pub mkdir_missing : Text → K → K
  mkdir_missing mountpoint k = if host.exists mountpoint k then k else mkdir mountpoint k

  -- `MountLocalFs` behind its test. The dictionary of the status is not released.
  unfoldable pub mount_available : PpVar → K → K
  unfolding mkdir_missing dict_get dict_create dict_setstring var_release
  mount_available mount_data k =
      let (k1, filesystem) = dict_get pp mount_data (codes "filesystem") k in
      let resource = host.var_to_resource filesystem k1 in
      let (k2, filepath_var) = dict_get pp mount_data (codes "fullPath") k1 in
      let (k3, mountpoint_var) = dict_get pp mount_data (codes "mountPoint") k2 in
      let filepath = host.var_to_utf8 filepath_var k3 in
      let mountpoint = host.var_to_utf8 mountpoint_var k3 in
      let (k4, status_var) = dict_create pp (mkdir_missing mountpoint k3) in
      let (k5, result) =
        mount
          (record {
            source = filepath;
            target = mountpoint;
            filesystemtype = codes "html5fs";
            options = some (host.filesystem_data resource);
          })
          k4 in
      let k6 = dict_setstring pp status_var (codes "mount_status") (status_text result) k5 in
      let k7 = host.post_message status_var k6 in
      var_release pp mountpoint_var (var_release pp filepath_var (var_release pp filesystem k7))

  -- `none` where the assertion of `nspawn_dict_getbool` fails.
  unfoldable pub mount_local_fs : PpVar → K → Option K
  unfolding mount_available dict_getbool
  mount_local_fs mount_data k =
      let (k1, available) = dict_getbool pp mount_data (codes "available") k in
      elim available [
        | none ↦ none
        | some true ↦ some (mount_available mount_data k1)
        | some false ↦ some k1
      ]

  unfoldable pub unmount_mounted : PpVar → K → K
  unfolding dict_create dict_setstring var_release
  unmount_mounted mountpoint_var k =
      let mountpoint = host.var_to_utf8 mountpoint_var k in
      let (k1, status_var) = dict_create pp k in
      let (k2, result) = host.umount mountpoint k1 in
      let k3 = dict_setstring pp status_var (codes "unmount_status") (status_text result) k2 in
      let k4 = host.post_message status_var k3 in
      var_release pp mountpoint_var (var_release pp status_var k4)

  unfoldable pub unmount_local_fs : PpVar → K → Option K
  unfolding unmount_mounted dict_getbool dict_get
  unmount_local_fs mount_data k =
      let (k1, mounted) = dict_getbool pp mount_data (codes "mounted") k in
      let (k2, mountpoint_var) = dict_get pp mount_data (codes "mountPoint") k1 in
      elim mounted [
        | none ↦ none
        | some true ↦ some (unmount_mounted mountpoint_var k2)
        | some false ↦ some k2
      ]

  unfoldable pub handle_mount_message : PpVar → PpVar → K → Option K
  unfolding mount_local_fs
  handle_mount_message key value k =
      if is_string key && is_dictionary value then mount_local_fs value k else some k

  unfoldable pub handle_unmount_message : PpVar → PpVar → K → Option K
  unfolding unmount_local_fs
  handle_unmount_message key value k =
      if is_string key && is_dictionary value then unmount_local_fs value k else some k

  -- The mount of the reply, and then the handlers.
  unfoldable pub mount_reply : PpVar → K → Option K
  unfolding mount_local_fs var_release
  mount_reply result_dict_var k = elim (mount_local_fs result_dict_var k) [
    | none ↦ none
    | some k1 ↦
        let k2 = var_release pp result_dict_var k1 in
        some (host.register_handler (codes "unmount") (host.register_handler (codes "mount") k2))
  ]

  unfoldable pub request_mount : K → Option K
  unfolding mount_reply dict_create dict_setstring
  request_mount k =
      let (k1, req_var) = dict_create pp k in
      let k2 = dict_setstring pp req_var (codes "command") (codes "nacl_mountfs") k1 in
      let (k3, result_dict_var) = host.pipe_host.send_request req_var k2 in
      if is_null result_dict_var then some k3 else mount_reply result_dict_var k3

  unfoldable pub mountfs : K → Option K
  unfolding request_mount
  mountfs k = elim (library.getenv (codes "NACL_PROCESS") k) [
    | none ↦ some k
    | some naclprocess ↦ request_mount k
  ]
