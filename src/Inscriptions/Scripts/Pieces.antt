-- ===== src/Inscriptions/Scripts/Pieces.antt =====
-- `InscriptionParser::parse` of src/inscriptions/structs.rs on an inscription whose pieces are
-- spread over scripts.
use wjk_20_indexer.Prelude.{
  ℕ, zero, suc, ◌-◌, ◌≡◌, refl, sym, ap, ◌∙◌, true, some, List, [], ◌∷◌, ◌++◌, append_assoc,
  append-nil, Bytes, ◌==◌, ==_refl, if_pos, arith,
}
use wjk_20_indexer.Tokens.Types.{Bytes-discrete}
use wjk_20_indexer.Inscriptions.Scripts.{
  ParsedInscription, partial, single, protocol_id, decode_push_datas, push_data_to_number,
  take_chunks, inscription_of, continues, read_scripts, parse,
}

-- Pieces with the numbers that are pushed before them.
abbrev pub Numbered : Type 0
Numbered = List (Bytes × Bytes)

abbrev pub pushed : Numbered → List Bytes
pushed [] = []
pushed ((a, d) ∷ ps) = a ∷ d ∷ pushed ps

abbrev pub body_of : Numbered → Bytes
body_of [] = []
body_of ((a, d) ∷ ps) = d ++ body_of ps

-- The numbers count down from `n`, which is not among them, to `m`.
abbrev pub CountsDown : ℕ → Numbered → ℕ → Type 0
CountsDown n [] m = n ≡ m
CountsDown zero ((a, d) ∷ ps) m = ⊥
CountsDown (suc k) ((a, d) ∷ ps) m = (push_data_to_number a ≡ some k) × CountsDown k ps m

-- The later scripts that bring the number of pieces that are left from `n` to `m`, and what they
-- add to the body.
pub data Continued : ℕ → List Bytes → ℕ → Bytes → Type 0 where
  done : {n : ℕ} → Continued n [] n []
  more :
      {n m k : ℕ} {s : Bytes} {ss : List Bytes} {rest : Bytes}
      → (p : Bytes × Bytes) (ps : Numbered) → decode_push_datas s ≡ some (pushed (p ∷ ps))
      → CountsDown (suc n) (p ∷ ps) m
      → Continued m ss k rest
      → Continued (suc n) (s ∷ ss) k (body_of (p ∷ ps) ++ rest)

-- What is parsed when `n` pieces are left at the end.
abbrev pub result_of : Bytes → ℕ → Bytes → ParsedInscription
result_of content_type zero body = single (inscription_of content_type body)
result_of content_type (suc n) body = partial

take_chunks-pushed :
    (n m : ℕ) (ps : Numbered) (body : Bytes)
    → CountsDown n ps m
    → take_chunks n (pushed ps) body ≡ (m, body ++ body_of ps)
unfolding take_chunks
take_chunks-pushed zero m [] body c = rw (sym c, append-nil body) refl
take_chunks-pushed (suc n) m [] body c = rw (sym c, append-nil body) refl
take_chunks-pushed zero m ((a, d) ∷ ps) body c = absurd c
take_chunks-pushed (suc k) m ((a, d) ∷ ps) body (number_of, c) =
    rw (take_chunks, number_of, ==_refl k)
      (take_chunks-pushed k m ps (body ++ d) c
        ∙ ap (λ z. (m, z)) (append_assoc body d (body_of ps)))

pred : (n : ℕ) → suc n - 1 ≡ n
pred n = omega arith

continues-pushed :
    (n m : ℕ) (p : Bytes × Bytes) (ps : Numbered)
    → CountsDown (suc n) (p ∷ ps) m
    → continues (suc n) (pushed (p ∷ ps)) ≡ true
continues-pushed n m (a, d) ps (number_of, c) =
    rw (continues, number_of) (ap (λ z. n == z) (pred n) ∙ ==_refl n)

read_scripts_done :
    (ct : Bytes) (ss : List Bytes) (body : Bytes)
    → read_scripts ct ss (zero, body) ≡ single (inscription_of ct body)
unfolding read_scripts
read_scripts_done ct [] body = refl
read_scripts_done ct (s ∷ ss) body = refl

read_scripts_end : (ct : Bytes) (n : ℕ) (body : Bytes) → read_scripts ct [] (suc n, body) ≡ partial
unfolding read_scripts
read_scripts_end ct n body = refl

read_scripts-Continued :
    (content_type : Bytes) (n m : ℕ) (ss : List Bytes) (body rest : Bytes)
    → Continued n ss m rest
    → read_scripts content_type ss (n, body) ≡ result_of content_type m (body ++ rest)
unfolding read_scripts
read_scripts-Continued ct zero m [] body rest done =
    rw (append-nil body) (read_scripts_done ct [] body)
read_scripts-Continued ct (suc n) m [] body rest done = read_scripts_end ct n body
read_scripts-Continued ct zero m (s ∷ ss) body rest c = elim c [ ]
read_scripts-Continued ct (suc n) m (s ∷ ss) body rest
      (more {m = m'} {rest = rest'} p ps read c next) =
    rw
      (
        read_scripts,
        read,
        continues-pushed n m' p ps c,
        take_chunks-pushed (suc n) m' (p ∷ ps) body c,
      )
      (read_scripts-Continued ct m' m ss (body ++ body_of (p ∷ ps)) rest' next
        ∙ ap (result_of ct m) (append_assoc body (body_of (p ∷ ps)) rest'))

-- An inscription of `n` pieces is put together from the scripts that push them, the first of which
-- starts with the protocol's name, a push that stands for `n` and the content type, and each later one of
-- which pushes at least one piece, when the pieces are numbered down to `m`: it is single, with all
-- pieces as its body, when `m` is 0, and partial otherwise.
pub parse-Continued :
    (s : Bytes) (ss : List Bytes) (n m k : ℕ) (count content_type rest : Bytes) (ps : Numbered)
    → decode_push_datas s ≡ some (protocol_id ∷ count ∷ content_type ∷ pushed ps)
    → push_data_to_number count ≡ some (suc n)
    → CountsDown (suc n) ps m
    → Continued m ss k rest
    → parse s ss ≡ result_of content_type k (body_of ps ++ rest)
unfolding parse
parse-Continued s ss n m k count ct rest ps read number_of c next =
    rw
      (
        parse,
        read,
        if_pos (Bytes-discrete protocol_id protocol_id) refl,
        number_of,
        take_chunks-pushed (suc n) m ps [] c,
      )
      (read_scripts-Continued ct m k ss (body_of ps) rest next)
