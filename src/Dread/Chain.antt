-- ===== src/Dread/Chain.antt =====
-- ports/dreadthread/dread_chain.c: circular doubly linked chains with an anchor, on a heap of links.
pub mod Ring
pub mod Unlink
pub mod Frame
mod Examples
use webports.Prelude.{ℕ, Option, none, some, Bool, ◌==◌, if◌then◌else◌}

-- The `prev` and `next` fields of every `struct dthr_chain`, by address.
pub record Links : Type 0 where
  pub prev : ℕ → ℕ
  pub next : ℕ → ℕ

-- A write of one field.
abbrev pub update {ℓ} : {A : Type ℓ} → (ℕ → A) → ℕ → A → ℕ → A
update f a v x = if x == a then v else f x

abbrev pub set_prev : Links → ℕ → ℕ → Links
set_prev l a v = record l { prev = update l.prev a v }

abbrev pub set_next : Links → ℕ → ℕ → Links
set_next l a v = record l { next = update l.next a v }

unfoldable pub chain_init : Links → ℕ → Links
chain_init l anchor = set_prev (set_next l anchor anchor) anchor anchor

unfoldable pub chain_empty : Links → ℕ → Bool
chain_empty l anchor = l.next anchor == anchor

unfoldable pub chain_delete : Links → ℕ → Links
chain_delete l link =
    let l1 = set_next l (l.prev link) (l.next link) in
    let l2 = set_prev l1 (l1.next link) (l1.prev link) in
    let l3 = set_next l2 link link in set_prev l3 link link

unfoldable pub chain_dequeue : Links → ℕ → Option ℕ × Links
unfolding chain_empty chain_delete
chain_dequeue l anchor =
    if chain_empty l anchor
    then (none, l)
    else (some (l.next anchor), chain_delete l (l.next anchor))

unfoldable pub chain_insert_after : Links → ℕ → ℕ → Links
chain_insert_after l link new_link =
    let l1 = set_next l new_link (l.next link) in
    let l2 = set_prev l1 new_link link in
    let l3 = set_prev l2 (l2.next link) new_link in set_next l3 link new_link

unfoldable pub chain_insert_before : Links → ℕ → ℕ → Links
chain_insert_before l link new_link =
    let l1 = set_prev l new_link (l.prev link) in
    let l2 = set_next l1 new_link link in
    let l3 = set_next l2 (l2.prev link) new_link in set_prev l3 link new_link
