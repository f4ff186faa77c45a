-- ===== src/Spawn/Paths/Split.antt =====
-- `nspawn_get_paths` of ports/nacl-spawn/path_util.cc against joined parts, and the search.
use webports.Prelude.{
  Bool, true, false, List, [], ◌∷◌, ◌++◌, Option, none, some, ◌==◌, ◌≡◌, ◌≢◌, refl, ap, sym, ◌∙◌,
  All, inl, inr, Bool-cases, map, append_assoc, append-nil, Text, subst,
}
use webports.Spawn.Paths.{colon, directory, split, get_paths, find_in_paths}

-- The parts, with a colon between each two.
abbrev pub join : List Text → Text → Text
join [] last = last
join (part ∷ parts) last = part ++ (colon ∷ join parts last)

abbrev pub NoColon : Text → Type 0
NoColon = All (λ c. (c == colon) ≡ false)

-- A part without colons is read to its end.
split-append :
    (before part rest : Text)
    → NoColon part
    → split before (part ++ rest) ≡ split (before ++ part) rest
unfolding split
split-append before [] rest h = rw append-nil
split-append before (c ∷ part) rest h =
    rw (h.0, split)
      (split-append (before ++ c ∷ []) part rest h.1 ∙ rw (append_assoc before (c ∷ []) part))

split-join :
    (parts : List Text) (last : Text)
    → All NoColon parts
    → NoColon last
    → split [] (join parts last) ≡ map directory parts ++ last ∷ []
unfolding split
split-join [] last h l = sym (ap (split []) (append-nil last)) ∙ split-append [] last [] l
split-join (part ∷ parts) last h l =
    split-append [] part (colon ∷ join parts last) h.0
    ∙ ap (λ ps. directory part ∷ ps) (split-join parts last h.1 l)

get_paths-split : (env : Text) → env ≢ [] → get_paths (some env) ≡ split [] env
unfolding get_paths
get_paths-split [] h = absurd (h refl)
get_paths-split (c ∷ env) h = refl

-- A search path that is not empty is cut at its colons: the directories are its parts in order, an
-- empty part stands for the current directory if a colon follows it, and the last part is kept as
-- it is.
pub get_paths-join :
    (parts : List Text) (last : Text)
    → All NoColon parts
    → NoColon last
    → join parts last ≢ []
    → get_paths (some (join parts last)) ≡ map directory parts ++ last ∷ []
get_paths-join parts last h l e = get_paths-split (join parts last) e ∙ split-join parts last h l

abbrev pub path_in : Text → Text → Text
path_in basename dir = dir ++ b'/' ∷ basename

-- The path is that of the first directory where the file can be read; with no path there is none.
abbrev pub IsFirst : (Text → Bool) → Text → List Text → Option Text → Type 0
IsFirst access basename paths none = All (λ dir. access (path_in basename dir) ≡ false) paths
IsFirst access basename paths (some path) =
    (before : List Text) × (dir : Text) × (after : List Text) × (paths ≡ before ++ dir ∷ after)
    × All (λ d. access (path_in basename d) ≡ false) before
    × (path ≡ path_in basename dir)
    × (access path ≡ true)

IsFirst-cons :
    (access : Text → Bool) (basename dir : Text) (paths : List Text) (found : Option Text)
    → access (path_in basename dir) ≡ false
    → IsFirst access basename paths found
    → IsFirst access basename (dir ∷ paths) found
IsFirst-cons access basename dir paths none h f = (h, f)
IsFirst-cons access basename dir paths (some path) h (before, d, after, e, b, p, a) =
    (dir ∷ before, d, after, ap (λ ps. dir ∷ ps) e, (h, b), p, a)

-- The search returns the path in the first directory where `access` lets the file be read, and
-- fails only if there is none.
pub find_in_paths-IsFirst :
    (access : Text → Bool) (basename : Text) (paths : List Text)
    → IsFirst access basename paths (find_in_paths access basename paths)
unfolding find_in_paths
find_in_paths-IsFirst access basename [] = tt
find_in_paths-IsFirst access basename (dir ∷ paths) =
    elim (Bool-cases (access (path_in basename dir))) [
      | inl d ↦ rw d ([], dir, paths, refl, tt, refl, d)
      | inr d ↦ rw d (
          IsFirst-cons access basename dir paths (find_in_paths access basename paths) d
            (find_in_paths-IsFirst access basename paths))
    ]

-- The path that is found can be read.
pub find_in_paths-access :
    (access : Text → Bool) (basename : Text) (paths : List Text) (path : Text)
    → find_in_paths access basename paths ≡ some path
    → access path ≡ true
unfolding find_in_paths
find_in_paths-access access basename [] path h = cc
find_in_paths-access access basename (dir ∷ paths) path h =
    elim (Bool-cases (access (path_in basename dir))) [
      | inl d ↦
          let g : some (path_in basename dir) ≡ some path = rw d at h in
          let q : path_in basename dir ≡ path = cc in subst (λ p. access p ≡ true) q d
      | inr d ↦ find_in_paths-access access basename paths path (rw d at h)
    ]
