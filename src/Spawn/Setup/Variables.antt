-- ===== src/Spawn/Setup/Variables.antt =====
-- The variables that ports/nacl-spawn/nacl_setup_env.c sets where they are missing.
use webports.Prelude.{ℕ, ℤ, Bool, Option, some, if◌then◌else◌, Text, codes, eq_text, ◌≡◌}
use webports.Spawn.Var.{PpVar}
use webports.Spawn.Setup.{Mount, Host, or_text}

-- The variables with a default.
pub data Variable : Type 0 where
  home path user logname : Variable

abbrev pub name_of : Variable → Text
name_of home = codes "HOME"
name_of path = codes "PATH"
name_of user = codes "USER"
name_of logname = codes "LOGNAME"

abbrev pub default_of : Variable → Text
default_of home = codes "/home/user"
default_of path = codes "/bin"
default_of user = codes "user"
default_of logname = codes "user"

abbrev pub variable : {K : Type 0} → Host K → Variable → K → Option Text
variable host x k = host.library.getenv (name_of x) k

-- The step leaves the variable as it was.
abbrev pub Keeps : {K : Type 0} → Host K → Variable → (K → K) → Type 0
Keeps {K} host x f = (k : K) → variable host x (f k) ≡ variable host x k

-- `setenv` without override sets a variable that is missing, and no other call changes this one.
pub record IsHost {K : Type 0} (host : Host K) (x : Variable) : Type 0 where
  pub setenv :
      (n v : Text) (k : K)
      → variable host x (host.setenv n v k) ≡ (
          if eq_text n (name_of x) then some (or_text v (variable host x k)) else variable host x k)
  pub release : (a : PpVar) → Keeps host x (λ k. host.pp.release a k)
  pub utf8 : (t : Text) → Keeps host x (λ k. (host.pp.var_from_utf8 t k).0)
  pub create : Keeps host x (λ k. (host.pp.dictionary_create k).0)
  pub get : (d a : PpVar) → Keeps host x (λ k. (host.pp.get d a k).0)
  pub set : (d a b : PpVar) → Keeps host x (λ k. host.pp.set d a b k)
  pub send : (a : PpVar) → Keeps host x (λ k. (host.pipe_host.send_request a k).0)
  pub register : Keeps host x (λ k. (host.pipe_host.register k).0)
  pub mkdir_pipes : Keeps host x (λ k. host.pipe_host.mkdir k)
  pub mount_pipes : Keeps host x (λ k. (host.pipe_host.mount k).0)
  pub unset : (n : ℕ) → Keeps host x (λ k. host.library.unset n k)
  pub open_pipe : (p : ℤ) (w : Bool) → Keeps host x (λ k. (host.library.open_pipe p w k).0)
  pub dup2 : (a b : ℤ) → Keeps host x (λ k. host.library.dup2 a b k)
  pub close : (a : ℤ) → Keeps host x (λ k. host.library.close a k)
  pub umount : (t : Text) → Keeps host x (λ k. (host.umount t k).0)
  pub mount : (m : Mount) → Keeps host x (λ k. (host.mount m k).0)
  pub mkdir : (t : Text) → Keeps host x (λ k. host.mkdir t k)
  pub chdir : (t : Text) → Keeps host x (λ k. (host.chdir t k).0)
  pub setlocale : Keeps host x (λ k. host.setlocale k)
  pub post : (a : PpVar) → Keeps host x (λ k. host.post_message a k)
  pub handler : (t : Text) → Keeps host x (λ k. host.register_handler t k)
