-- ===== src/Parser/Keeps.antt =====
-- What `parse_block` of src/inscriptions/parser.rs leaves of the token cache, and that it returns.
use wjk_20_indexer.Prelude.{
  ℕ, ◌≡◌, refl, sym, Bool, true, false, Bool-cases, inl, inr, Option, none, some, List, [], ◌∷◌,
  ◌++◌, append_assoc, append-nil, Map, lookup, ite, if◌then◌else◌, Results, Results->>=,
}
use wjk_20_indexer.Tokens.Platform.{Platform}
use wjk_20_indexer.Tokens.Types.{
  OutPoint, Location, TokenAction, TokenCache, Bytes-discrete, OutPoint-discrete,
}
use wjk_20_indexer.Tokens.Parsing.{
  Brc4, mint, transfer, deploy, is_supported, InscriptionTemplate, parsed_of, queue_brc4,
  queue_parsed, parse_token_action, transferred, burned_transfer,
}
use wjk_20_indexer.Db.Types.{TxPrevout}
use wjk_20_indexer.Inscriptions.Types.{TxIn, TxOut, Tx}
use wjk_20_indexer.Inscriptions.Leaked.{unwrap}
use wjk_20_indexer.Parser.{Context}
use wjk_20_indexer.Parser.Blocks.{move_transfer, come_back}
use wjk_20_indexer.Parser.Known.{IsKnown, unwrap-returns}

module _ (p : Platform) where
  open p use {Amount}

  -- The tokens, the accounts and the valid transfers are as they were, and actions are only added.
  abbrev pub Keeps : TokenCache Amount → TokenCache Amount → Type 0
  Keeps c c' =
      (c'.tokens ≡ c.tokens)
      × (c'.token_accounts ≡ c.token_accounts)
      × (c'.valid_transfers ≡ c.valid_transfers)
      × ((new : List (TokenAction Amount)) × (c'.token_actions ≡ c.token_actions ++ new))

  pub Keeps-refl : (c : TokenCache Amount) → Keeps c c
  Keeps-refl c = (refl, refl, refl, ([], sym (append-nil c.token_actions)))

  queue-Keeps :
      (c0 c : TokenCache Amount) (a : TokenAction Amount)
      → Keeps c0 c
      → Keeps c0 (record c { token_actions = c.token_actions ++ (a ∷ []) })
  queue-Keeps c0 c a (t, b, v, (new, e)) =
      (t, b, v, (new ++ (a ∷ []), rw e (append_assoc c0.token_actions new (a ∷ []))))

  module _ (x : Context p) where
    open x use {chain, from_json, is_op_return}

    queue_brc4-Keeps :
        (c0 c : TokenCache Amount) (inc : InscriptionTemplate) (height created : ℕ)
        (b : Brc4 Amount)
        → Keeps c0 c
        → Keeps c0 (queue_brc4 p chain from_json inc height created b c)
    unfolding queue_brc4
    queue_brc4-Keeps c0 c inc height created (mint k v) h =
        elim (Bool-cases (is_supported chain k)) [
          | inl yes_ ↦ rw yes_ (queue-Keeps c0 c _ h)
          | inr no_ ↦ rw no_ h
        ]
    queue_brc4-Keeps c0 c inc height created (deploy k v) h =
        elim (Bool-cases (is_supported chain k)) [
          | inl yes_ ↦ rw yes_ (queue-Keeps c0 c _ h)
          | inr no_ ↦ rw no_ h
        ]
    queue_brc4-Keeps c0 c inc height created (transfer k v) h =
        elim (Bool-cases (is_supported chain k)) [
          | inl yes_ ↦ rw yes_ (queue-Keeps c0 c _ h)
          | inr no_ ↦ rw no_ h
        ]

    queue_parsed-Keeps :
        (c0 c : TokenCache Amount) (inc : InscriptionTemplate) (height created : ℕ)
        (b : Option (Brc4 Amount))
        → Keeps c0 c
        → Keeps c0 (queue_parsed p chain from_json inc height created b c)
    unfolding queue_brc4
    queue_parsed-Keeps c0 c inc height created none h = h
    queue_parsed-Keeps c0 c inc height created (some b) h =
        queue_brc4-Keeps c0 c inc height created b h

    unleaked-Keeps :
        (c0 c : TokenCache Amount) (inc : InscriptionTemplate) (height created : ℕ) (leaked : Bool)
        → Keeps c0 c
        → Keeps c0 (
            if leaked
            then c
            else queue_parsed p chain from_json inc height created
                (parsed_of p chain from_json inc.content_type inc.content)
                c)
    unleaked-Keeps c0 c inc height created true h = h
    unleaked-Keeps c0 c inc height created false h =
        queue_parsed-Keeps c0 c inc height created
          (parsed_of p chain from_json inc.content_type inc.content) h

    pub parse_token_action-Keeps :
        (c0 c : TokenCache Amount) (inc : InscriptionTemplate) (height created : ℕ)
        → Keeps c0 c
        → Keeps c0 (parse_token_action p chain from_json inc height created c)
    unfolding parse_token_action
    parse_token_action-Keeps c0 c inc height created h =
        elim (Bytes-discrete inc.owner p.op_return_hash)
          as (λ d. Keeps c0 (
            ite d c (
              if inc.leaked
              then c
              else queue_parsed p chain from_json inc height created
                  (parsed_of p chain from_json inc.content_type inc.content) c))) [
                    | yes burned ↦ h
                    | no live ↦ unleaked-Keeps c0 c inc height created inc.leaked h
                  ]

    pub move_transfer-Keeps :
        (c0 c : TokenCache Amount) (tx : Tx) (old : Location) (vout : ℕ) (out : TxOut)
        → Keeps c0 c
        → Keeps c0 (move_transfer p x tx old vout out c)
    unfolding move_transfer burned_transfer transferred
    move_transfer-Keeps c0 c tx old vout out h =
        elim (Bool-cases (is_op_return out.script_pubkey)) [
          | inl burned ↦ rw burned (queue-Keeps c0 c _ h)
          | inr live ↦ rw live (queue-Keeps c0 c _ h)
        ]

    pub come_back-Keeps :
        (c0 c : TokenCache Amount) (tx : Tx) (txin : TxIn) (old : Location) (is_transfer : Bool)
        (prevouts : Map OutPoint TxPrevout)
        → IsKnown prevouts txin
        → Keeps c0 c
        → Results (Keeps c0) (come_back p x tx txin old is_transfer prevouts c)
    unfolding come_back transferred
    come_back-Keeps c0 c tx txin old false prevouts k h = h
    come_back-Keeps c0 c tx txin old true prevouts k h =
        Results->>= _ (Keeps c0) (unwrap (lookup OutPoint-discrete txin.outpoint prevouts)) _
          (unwrap-returns (lookup OutPoint-discrete txin.outpoint prevouts) k)
          λ owner e. queue-Keeps c0 c _ h
