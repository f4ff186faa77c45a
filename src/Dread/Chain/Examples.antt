-- ===== src/Dread/Chain/Examples.antt =====
-- The theorems on ports/dreadthread/dread_chain.c at concrete chains.
use webports.Prelude.{ℕ, ◌∷◌, [], ◌≡◌, ◌==◌, refl, Fresh, Apart, arith, if◌then◌else◌, some}
use webports.Dread.Chain.{Links, chain_insert_before, chain_delete, chain_dequeue}
use webports.Dread.Chain.Ring.{IsRing, chain_insert_before-IsRing}
use webports.Dread.Chain.Unlink.{Unchanged, chain_delete-IsRing, chain_dequeue-IsRing}

-- The chain at 0 holds 1 and 2, and the chain at 5 is empty.
abbrev three : Links
three = record {
  prev = λ a. if a == 0 then 2 else if a == 1 then 0 else if a == 2 then 1 else a;
  next = λ a. if a == 0 then 1 else if a == 1 then 2 else if a == 2 then 0 else a;
}

three-IsRing : IsRing three 0 (1 ∷ 2 ∷ [])
three-IsRing = record {
  linked = (refl, refl, (refl, refl, (refl, refl)));
  distinct = (((λ e. omega arith), ((λ e. omega arith), tt)), (((λ e. omega arith), tt), (tt, tt)));
}

five-IsRing : IsRing three 5 []
five-IsRing = record { linked = (refl, refl); distinct = (tt, tt) }

three-Fresh : Fresh {A = ℕ} 3 (0 ∷ 1 ∷ 2 ∷ [])
three-Fresh = ((λ e. omega arith), ((λ e. omega arith), ((λ e. omega arith), tt)))

five-Fresh : Fresh {A = ℕ} 3 (5 ∷ [])
five-Fresh = ((λ e. omega arith), tt)

chains-Apart : Apart {A = ℕ} (0 ∷ 1 ∷ 2 ∷ []) (5 ∷ [])
chains-Apart =
    (((λ e. omega arith), tt), (((λ e. omega arith), tt), (((λ e. omega arith), tt), tt)))

chain_insert_before-IsRing_example : IsRing (chain_insert_before three 0 3) 0 (1 ∷ 2 ∷ 3 ∷ [])
chain_insert_before-IsRing_example =
    chain_insert_before-IsRing three 0 (1 ∷ 2 ∷ []) 3 three-IsRing three-Fresh

chain_delete-IsRing_example : IsRing (chain_delete three 1) 0 (2 ∷ [])
chain_delete-IsRing_example = chain_delete-IsRing three 0 [] 1 (2 ∷ []) three-IsRing

chain_dequeue-IsRing_example :
    ((chain_dequeue three 0).0 ≡ some 1)
    × IsRing (chain_dequeue three 0).1 0 (2 ∷ [])
    × Unchanged (1 ∷ 2 ∷ []) three (chain_dequeue three 0).1
chain_dequeue-IsRing_example = chain_dequeue-IsRing three 0 (1 ∷ 2 ∷ []) three-IsRing
