-- ===== src/Spawn/Setup/Start.antt =====
-- ports/nacl-spawn/nacl_setup_env.c: `nacl_setup_env` and its parts.
use webports.Prelude.{ℤ, pos, eq_int, not, [], Option, none, some, if◌then◌else◌, Text, codes}
use webports.Spawn.Pipes.{Restored, restored, failed, exhausted, getenv_as_int, restore_pipes}
use webports.Spawn.Apipe.{setup_anonymous_pipes}
use webports.Spawn.Setup.{Host, Pids, Setup, ends, failed_assert, no_fuel, or_text, mountfs}

module _ {K : Type 0} (host : Host K) where
  open host use {mount, mkdir, library}

  abbrev pub mount_at : Text → Text → Text → Option Text → K → K × ℤ
  mount_at source target filesystemtype options k =
      mount
        (record {
          source = source;
          target = target;
          filesystemtype = filesystemtype;
          options = options;
        })
        k

  unfoldable pub mount_root : Option Text → K → K × ℤ
  mount_root (some html5_root) k =
      mount_at html5_root (codes "/") (codes "html5fs") (some (codes "type=PERSISTENT")) k
  mount_root none k = mount_at [] (codes "/") (codes "memfs") none k

  unfoldable pub set_defaults : K → K
  set_defaults k =
      let k1 = host.setenv (codes "HOME") (codes "/home/user") k in
      let k2 = host.setenv (codes "PATH") (codes "/bin") k1 in
      let k3 = host.setenv (codes "USER") (codes "user") k2 in
      host.setenv (codes "LOGNAME") (codes "user") k3

  unfoldable pub make_directories : Text → K → K
  make_directories home k =
      let k1 = mkdir (codes "/tmp") (mkdir home (mkdir (codes "/home") k)) in
      let k2 = mkdir (codes "/mnt") (mkdir (codes "/etc") (mkdir (codes "/bin") k1)) in
      mkdir (codes "/mnt/http") k2

  unfoldable pub mount_http : K → K
  mount_http k =
      let data_url = or_text (codes "./") (library.getenv (codes "NACL_DATA_URL") k) in
      let mount_flags = or_text [] (library.getenv (codes "NACL_DATA_MOUNT_FLAGS") k) in
      (mount_at data_url (codes "/mnt/http") (codes "httpfs") (some mount_flags) k).0

  unfoldable pub mount_home : Text → K → K
  mount_home home k =
      let k1 = mkdir (codes "/mnt/html5/home") k in
      let (k2, result) =
        mount_at (codes "/home") home (codes "html5fs") (some (codes "type=PERSISTENT")) k1 in
      if host.is_directory (codes "/mnt/html5/home") k1 then k2 else k1

  -- The persistent storage, if it is not the root.
  unfoldable pub mount_html5 : Option Text → Text → K → K
  unfolding mount_home
  mount_html5 (some html5_root) home k = k
  mount_html5 none home k =
      let (k1, result) =
        mount_at (codes "/") (codes "/mnt/html5") (codes "html5fs") (some (codes "type=PERSISTENT"))
          (mkdir (codes "/mnt/html5") k) in
      if eq_int result (pos 0) then mount_home home k1 else k1

  unfoldable pub after_pipes : Pids → Restored K → Setup K
  after_pipes ids (restored old k) = ends (pos 0) ids k
  after_pipes ids (failed old k) = ends (pos 1) ids k
  after_pipes ids exhausted = no_fuel

  -- `nacl_setup_env` from the architecture on.
  unfoldable pub set_process : K → Setup K
  unfolding after_pipes getenv_as_int restore_pipes
  set_process k =
      let k1 = host.setenv (codes "NACL_ARCH") host.arch k in
      let k2 = host.setlocale (host.setenv (codes "NACL_BOOT_ARCH") host.arch k1) in
      after_pipes
        (record {
          pid = getenv_as_int library (codes "NACL_PID") k2;
          ppid = getenv_as_int library (codes "NACL_PPID") k2;
        })
        (restore_pipes library host.fuel k2)

  unfoldable pub change_dir : Pids → Option Text → K → Setup K
  unfolding set_process
  change_dir ids none k = set_process k
  change_dir ids (some pwd) k =
      let (k1, result) = host.chdir pwd k in
      if eq_int result (pos 0) then set_process k1 else ends (pos 1) ids k1

  -- `nacl_setup_env` from the variables on; a `HOME` that is still missing then has no text.
  unfoldable pub set_up_files : Option Text → Pids → K → Setup K
  unfolding set_defaults make_directories mount_http mount_html5 mountfs change_dir
  set_up_files html5_root ids k =
      let k1 = set_defaults k in
      let home = or_text [] (library.getenv (codes "HOME") k1) in
      let k2 = mount_html5 html5_root home (mount_http (make_directories home k1)) in
      let k3 =
        (mount_at (codes "/") (codes "/tmp") (codes "html5fs") (some (codes "type=TEMPORARY"))
          k2).0 in
      elim (mountfs host k3) [
        | none ↦ failed_assert
        | some k4 ↦ change_dir ids (library.getenv (codes "PWD") k4) k4
      ]

  -- The identifiers are those before the call.
  unfoldable pub nacl_setup_env : Pids → K → Setup K
  unfolding mount_root setup_anonymous_pipes set_up_files
  nacl_setup_env ids k =
      let k1 = (host.umount (codes "/") k).0 in
      let html5_root = library.getenv (codes "NACL_HTML5_ROOT") k1 in
      let (k2, mounted) = mount_root html5_root k1 in
      let (k3, rtn) = setup_anonymous_pipes host.pipe_host k2 in
      let set_up = set_up_files html5_root ids k3 in
      if not host.has_instance
      then ends (pos 0) ids k
      else if not (eq_int mounted (pos 0))
      then ends (pos 1) ids k2
      else if eq_int (pos rtn) (pos 0)
      then set_up
      else ends (pos rtn) ids k3
