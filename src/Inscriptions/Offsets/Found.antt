-- ===== src/Inscriptions/Offsets/Found.antt =====
-- In which output a position lies: `get_output_index_by_input` of src/inscriptions/searcher.rs.
use wjk_20_indexer.Prelude.{
  ℕ, suc, ◌+◌, ◌-◌, ◌^◌, ◌≤◌, ◌<◌, ◌≡◌, refl, ap, ◌∙◌, none, some, List, [], ◌∷◌, length, get_elem?,
  lt→ltb, le→ltb, lt→leb, le→leb, dec_lt, arith,
}
use wjk_20_indexer.Inscriptions.Types.{
  TxOut, sum, values, start_of, sub_u64_lem, small_u64, small_u32,
}
use wjk_20_indexer.Inscriptions.Offsets.{find_output, get_output_index_by_input}

find_output_here :
    (idx offset : ℕ) (o : TxOut) (os : List TxOut)
    → idx < 2 ^ 32
    → offset < o.value
    → find_output idx offset (o ∷ os) ≡ some (idx, offset)
unfolding find_output
find_output_here idx offset o os n h = rw (lt→ltb offset o.value h, small_u32 idx n) refl

find_output_later :
    (idx offset : ℕ) (o : TxOut) (os : List TxOut)
    → offset < 2 ^ 64
    → o.value ≤ offset
    → find_output idx offset (o ∷ os) ≡ find_output (idx + 1) (offset - o.value) os
unfolding find_output
find_output_later idx offset o os b h =
    rw (le→ltb offset o.value h, sub_u64_lem offset o.value h b) refl

pub find_output_lem :
    (os : List TxOut) (idx offset : ℕ)
    → idx + length os < 2 ^ 32
    → sum (values os) < 2 ^ 64
    → offset < sum (values os)
    → (i : ℕ) × (rest : ℕ) × (find_output idx offset os ≡ some (idx + i, rest))
      × (start_of i (values os) + rest ≡ offset)
      × ((o : TxOut) × (get_elem? os i ≡ some o) × (rest < o.value))
find_output_lem [] idx offset n b h = absurd (omega arith)
find_output_lem (o ∷ os) idx offset n b h = elim (dec_lt offset o.value) [
  | yes here ↦ (
    0,
    offset,
    find_output_here idx offset o os (omega arith) here ∙ ap (λ x. some (x, offset)) (omega arith),
    omega arith,
    (o, refl, here),
  )
  | no later ↦
      let (i, rest, found, at, (o', e, l)) =
        find_output_lem os (idx + 1) (offset - o.value) (omega arith) (omega arith) (omega arith) in
      (
        suc i,
        rest,
        find_output_later idx offset o os (omega arith) (omega arith)
            ∙ found
            ∙ ap (λ x. some (x, rest)) (omega arith),
        omega arith,
        (o', e, l),
      )
]

-- A position before the end of the outputs is found in the output that covers it, with what is left
-- of it there. The outputs are fewer than 2^32 and their values add up to less than 2^64.
pub get_output_index_by_input_lem :
    (os : List TxOut) (offset : ℕ)
    → length os < 2 ^ 32
    → sum (values os) < 2 ^ 64
    → offset < sum (values os)
    → (i : ℕ) × (rest : ℕ) × (get_output_index_by_input (some offset) os ≡ some (i, rest))
      × (start_of i (values os) + rest ≡ offset)
      × ((o : TxOut) × (get_elem? os i ≡ some o) × (rest < o.value))
unfolding get_output_index_by_input
get_output_index_by_input_lem os offset n b h =
    let (i, rest, found, at, o) = find_output_lem os 0 offset (omega arith) b h in
    (
      i,
      rest,
      rw (small_u64 (sum (values os)) b, lt→leb (sum (values os)) offset h)
          (found ∙ ap (λ x. some (x, rest)) (omega arith)),
      at,
      o,
    )

-- A position is refused, as one that leaks, when it is not before the end of the outputs.
pub get_output_index_by_input-leaked :
    (os : List TxOut) (offset : ℕ)
    → sum (values os) < 2 ^ 64
    → sum (values os) ≤ offset
    → get_output_index_by_input (some offset) os ≡ none
unfolding get_output_index_by_input
get_output_index_by_input-leaked os offset b h =
    rw (small_u64 (sum (values os)) b, le→leb (sum (values os)) offset h) refl
