-- ===== src/Spawn/Libraries/Extends.antt =====
-- How the set of ports/nacl-spawn/library_dependencies.cc grows in a call.
use webports.Prelude.{
  ℕ, true, false, List, [], ◌∷◌, none, some, Text, ◌≡◌, ◌≢◌, ◌⊎◌, inl, inr, sym, ap, subst, ◌∙◌,
  Among, All,
}
use webports.Prelude.Sets.{insert, IsSorted, insert-IsSorted, Among-insert, Among-insert_inv}
use webports.Spawn.Paths.{find_in_paths}
use webports.Spawn.Elf.{dynamic, elf_reader}
use webports.Spawn.Libraries.{Disk, is_loader, known}
use webports.Spawn.Libraries.Needs.{
  Needs, needs, Reach, Faulty, not_valid, not_shared, not_bounded, not_known, not_found,
}

module _ (disk : Disk) (paths : List Text) where
  -- The name needs no search, or it is found and in the set.
  abbrev pub Handled : List Text → Text → Type 0
  Handled s name =
      (is_loader name ≡ true)
      ⊎ ((path : Text) × (find_in_paths disk.access name paths ≡ some path) × Among path s)

  -- A shared object for a machine that is known, with all that it names handled.
  pub record Done (s : List Text) (x : Text) : Type 0 where
    pub machine : ℕ
    pub names : List Text
    pub read : elf_reader (disk.fopen x) ≡ dynamic machine names
    pub runs : known machine ≡ true
    pub handled : All (Handled s) names

  pub record Extends (root : Text) (s t : List Text) : Type 0 where
    pub grows : (z : Text) → Among z s → Among z t
    pub sound : (z : Text) → Among z t → Among z s ⊎ Reach disk paths root z
    pub closed : (z : Text) → Among z t → Among z s ⊎ Done t z
    pub sorted : IsSorted s → IsSorted t

  pub Handled-grows :
      (s t : List Text)
      → ((z : Text) → Among z s → Among z t)
      → (names : List Text) → All (Handled s) names
      → All (Handled t) names
  Handled-grows s t g [] h = tt
  Handled-grows s t g (name ∷ names) (inl l, h) = (inl l, Handled-grows s t g names h)
  Handled-grows s t g (name ∷ names) (inr (p, f, m), h) =
      (inr (p, f, g p m), Handled-grows s t g names h)

  pub Done-grows :
      (s t : List Text) → ((z : Text) → Among z s → Among z t) → (z : Text) → Done s z → Done t z
  Done-grows s t g z d = record {
    machine = d.machine;
    names = d.names;
    read = d.read;
    runs = d.runs;
    handled = Handled-grows s t g d.names d.handled;
  }

  module _ (root : Text) where
    pub Extends_refl : (s : List Text) → Extends root s s
    Extends_refl s = record {
      grows = λ z m. m;
      sound = λ z m. inl m;
      closed = λ z m. inl m;
      sorted = λ h. h;
    }

    pub Extends_trans : (s t u : List Text) → Extends root s t → Extends root t u → Extends root s u
    Extends_trans s t u a b = record {
      grows = λ z m. b.grows z (a.grows z m);
      sound = λ z m. elim (b.sound z m) [ inl k ↦ a.sound z k | inr r ↦ inr r ];
      closed = λ z m. elim (b.closed z m) [
        | inl k ↦ elim (a.closed z k) [ inl j ↦ inl j | inr d ↦ inr (Done-grows t u b.grows z d) ]
        | inr d ↦ inr d
      ];
      sorted = λ h. b.sorted (a.sorted h);
    }

    -- A file is added, and what it needs behind it.
    pub Extends_add :
        (s t : List Text) (x : Text)
        → Reach disk paths root x
        → Extends root (insert x s) t
        → Done t x
        → Extends root s t
    Extends_add s t x r e d = record {
      grows = λ z m. e.grows z (Among-insert z x s m);
      sound = λ z m. elim (e.sound z m) [
        | inl k ↦ elim (Among-insert_inv z x s k) [
          | inl q ↦ inr (subst (Reach disk paths root) (sym q) r)
          | inr j ↦ inl j
        ]
        | inr k ↦ inr k
      ];
      closed = λ z m. elim (e.closed z m) [
        | inl k ↦ elim (Among-insert_inv z x s k) [
          | inl q ↦ inr (subst (Done t) (sym q) d)
          | inr j ↦ inl j
        ]
        | inr k ↦ inr k
      ];
      sorted = λ h. e.sorted (insert-IsSorted x s h);
    }

  Handled-needs :
      (t : List Text) (names : List Text) (name y : Text)
      → All (Handled t) names
      → Among name names
      → is_loader name ≡ false
      → find_in_paths disk.access name paths ≡ some y
      → Among y t
  Handled-needs t (n ∷ names) name y (inl l, h) (inl e) f p =
      let q : is_loader name ≡ true = ap is_loader e ∙ l in absurd (cc)
  Handled-needs t (n ∷ names) name y (inr (path, g, m), h) (inl e) f p =
      let q : some path ≡ some y =
        sym g ∙ ap (λ a. find_in_paths disk.access a paths) (sym e) ∙ p in
      let r : path ≡ y = cc in subst (λ a. Among a t) r m
  Handled-needs t (n ∷ names) name y (a, h) (inr m) f p = Handled-needs t names name y h m f p
  Handled-needs t [] name y h m f p = absurd m

  same_names :
      (x : Text) (m n : ℕ) (ms ns : List Text)
      → elf_reader (disk.fopen x) ≡ dynamic m ms
      → elf_reader (disk.fopen x) ≡ dynamic n ns
      → ms ≡ ns
  same_names x m n ms ns a b = cc

  same_machine :
      (x : Text) (m n : ℕ) (ms ns : List Text)
      → elf_reader (disk.fopen x) ≡ dynamic m ms
      → elf_reader (disk.fopen x) ≡ dynamic n ns
      → m ≡ n
  same_machine x m n ms ns a b = cc

  -- What a file needs that is done is in the set.
  pub Done-needs : (t : List Text) (x y : Text) → Done t x → Needs disk paths x y → Among y t
  Done-needs t x y d (needs machine names name e m f p) =
      Handled-needs t d.names name y d.handled
        (subst (Among name) (same_names x machine d.machine names d.names e d.read) m) f p

  Handled-found :
      (t : List Text) (names : List Text) (name : Text)
      → All (Handled t) names
      → Among name names
      → is_loader name ≡ false
      → find_in_paths disk.access name paths ≢ none
  Handled-found t (n ∷ names) name (inl l, h) (inl e) f q =
      let k : is_loader name ≡ true = ap is_loader e ∙ l in absurd (cc)
  Handled-found t (n ∷ names) name (inr (path, g, m), h) (inl e) f q =
      let k : some path ≡ none = sym g ∙ ap (λ a. find_in_paths disk.access a paths) (sym e) ∙ q in
      absurd (cc)
  Handled-found t (n ∷ names) name (a, h) (inr m) f q = Handled-found t names name h m f q
  Handled-found t [] name h m f q = absurd m

  -- A file that is done is not at fault.
  pub Done-Faulty : (t : List Text) (x : Text) → Done t x → ¬ Faulty disk paths x
  Done-Faulty t x d (not_valid e) = let r = d.read in absurd (cc)
  Done-Faulty t x d (not_shared machine e) = let r = d.read in absurd (cc)
  Done-Faulty t x d (not_bounded e) = let r = d.read in absurd (cc)
  Done-Faulty t x d (not_known machine names e k) =
      let q : machine ≡ d.machine = same_machine x machine d.machine names d.names e d.read in
      let r : known d.machine ≡ false = subst (λ m. known m ≡ false) q k in
      let s = d.runs in absurd (cc)
  Done-Faulty t x d (not_found machine names name e m l f) =
      Handled-found t d.names name d.handled
        (subst (Among name) (same_names x machine d.machine names d.names e d.read) m) l f
