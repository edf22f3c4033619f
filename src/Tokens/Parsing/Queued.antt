-- ===== src/Tokens/Parsing/Queued.antt =====
-- What `parse_token_action` of src/tokens/parser.rs makes sure of for the actions that it queues.
use wjk_20_indexer.Prelude.{
  ℕ, ◌≤◌, ◌≡◌, refl, sym, ap, ◌∙◌, Bool, true, false, Option, none, some, List, [], ◌∷◌, ◌++◌, All,
  Bytes, lookup, insert, lookup-insert, if_pos, if_neg, if◌then◌else◌, Bool-cases, inl, inr,
}
use wjk_20_indexer.Tokens.Platform.{Platform}
use wjk_20_indexer.Tokens.Types.{
  Location, MintProtoWrapper, TransferProtoDb, TokenAction, TokenCache, Bytes-discrete,
  Location-discrete,
}
use wjk_20_indexer.Tokens.Process.Invariant.{IsQueued}
use wjk_20_indexer.Tokens.Process.Actions.{All-IsQueued-Shrinks}
use wjk_20_indexer.Tokens.Parsing.{
  Blockchain, is_supported, Brc4, mint, transfer, deploy, InscriptionTemplate, DeployProtoWrapper,
  unwrap_or, queue_brc4, queue_parsed, parsed_of, parse_token_action, try_parse, if_allowed,
  is_text, is_allowed,
}

All-append : {A : Type 0} (P : A → Type 0) (xs ys : List A) → All P xs → All P ys → All P (xs ++ ys)
All-append P [] ys p q = q
All-append P (x ∷ xs) ys p q = (p.0, All-append P xs ys p.1 q)

module _ (p : Platform) where
  open p use {Amount, units, capacity, zero_amount, units-zero}

  -- An action that queues no transfer at a location.
  abbrev pub Elsewhere : Location → TokenAction Amount → Type 0
  Elsewhere l (TokenAction.transfer location owner proto txid vout) = ¬ (location ≡ l)
  Elsewhere l _ = Unit

  same_entry : (f e : TransferProtoDb Amount) → some f ≡ some e → f.amt ≡ e.amt
  same_entry f e h = cc

  IsQueued-insert :
      (l : Location) (e : TransferProtoDb Amount) (c : TokenCache Amount) (a : TokenAction Amount)
      → Elsewhere l a
      → IsQueued p c a
      → IsQueued p (record c { all_transfers = insert Location-discrete l e c.all_transfers }) a
  IsQueued-insert l e c (TokenAction.deploy genesis proto owner) x q = q
  IsQueued-insert l e c (TokenAction.mint owner proto txid vout) x q = q
  IsQueued-insert l e c (TokenAction.transferred location recipient txid vout) x q = q
  IsQueued-insert l e c (TokenAction.transfer location owner proto txid vout) x q = λ f h. q f (
      sym (
        if_neg (Location-discrete location l) x (some e)
          (lookup Location-discrete location c.all_transfers))
      ∙ sym (lookup-insert Location-discrete location l e c.all_transfers)
      ∙ h)

  All-IsQueued-insert :
      (l : Location) (e : TransferProtoDb Amount) (c : TokenCache Amount)
      (as_ : List (TokenAction Amount))
      → All (Elsewhere l) as_
      → All (IsQueued p c) as_
      → All
          (IsQueued p (record c { all_transfers = insert Location-discrete l e c.all_transfers }))
          as_
  All-IsQueued-insert l e c [] x q = tt
  All-IsQueued-insert l e c (a ∷ as_) x q =
      (IsQueued-insert l e c a x.0 q.0, All-IsQueued-insert l e c as_ x.1 q.1)

  -- What a cache keeps, and that its actions are as processing expects them.
  abbrev pub IsParsed : TokenCache Amount → TokenCache Amount → Type 0
  IsParsed c c' =
      All (IsQueued p c') c'.token_actions
      × (c'.tokens ≡ c.tokens)
      × (c'.token_accounts ≡ c.token_accounts)
      × (c'.valid_transfers ≡ c.valid_transfers)

  -- The maximum of a decoded deployment is an amount that `Fixed128` can hold.
  abbrev pub MaxFits : Option (Brc4 Amount) → Type 0
  MaxFits (some (deploy k v)) = units v.max ≤ capacity
  MaxFits _ = Unit

  queue-IsParsed :
      (a : TokenAction Amount) (c : TokenCache Amount)
      → All (IsQueued p c) c.token_actions
      → IsQueued p c a
      → IsParsed c (record c { token_actions = c.token_actions ++ (a ∷ []) })
  queue-IsParsed a c q n =
      let c' = record c { token_actions = c.token_actions ++ (a ∷ []) } in
      (
        All-IsQueued-Shrinks p c c' (c.token_actions ++ (a ∷ [])) (λ l e h. h)
            (All-append (IsQueued p c) c.token_actions (a ∷ []) q (n, tt)),
        refl,
        refl,
        refl,
      )

  abbrev deploy_of : InscriptionTemplate → ℕ → ℕ → DeployProtoWrapper Amount → TokenAction Amount
  deploy_of inc height created v =
      TokenAction.deploy inc.genesis
        (record {
          tick = v.tick;
          max = v.max;
          lim = unwrap_or v.max v.lim;
          dec = v.dec;
          supply = zero_amount;
          transfer_count = 0;
          mint_count = 0;
          height = height;
          created = created;
          deployer = inc.owner;
          transactions = 1;
        })
        inc.owner

  queue_transfer-IsParsed :
      (inc : InscriptionTemplate) (height : ℕ) (v : MintProtoWrapper Amount) (c : TokenCache Amount)
      → All (IsQueued p c) c.token_actions
      → All (Elsewhere inc.location) c.token_actions
      → IsParsed c (record c {
        token_actions =
            c.token_actions
            ++ (TokenAction.transfer inc.location inc.owner v inc.location.outpoint.txid
                  inc.location.outpoint.vout
                ∷ []);
        all_transfers =
            insert Location-discrete inc.location
              (record { tick = v.tick; amt = v.amt; height = height })
              c.all_transfers;
      })
  queue_transfer-IsParsed inc height v c q x =
      let e : TransferProtoDb Amount = record { tick = v.tick; amt = v.amt; height = height } in
      let c1 : TokenCache Amount = record c {
        all_transfers = insert Location-discrete inc.location e c.all_transfers;
      } in
      let a : TokenAction Amount =
        TokenAction.transfer inc.location inc.owner v inc.location.outpoint.txid
          inc.location.outpoint.vout in
      queue-IsParsed a c1 (All-IsQueued-insert inc.location e c c.token_actions x q) (λ f h.
        ap units (
          same_entry f e (
            sym h
            ∙ lookup-insert Location-discrete inc.location inc.location e c.all_transfers
            ∙ if_pos (Location-discrete inc.location inc.location) refl (some e)
                (lookup Location-discrete inc.location c.all_transfers))))

  module _ (chain : Blockchain) (from_json : Bytes → Option (Brc4 Amount)) where
    queue_brc4-IsParsed :
        (inc : InscriptionTemplate) (height created : ℕ) (b : Brc4 Amount) (c : TokenCache Amount)
        → MaxFits (some b)
        → All (IsQueued p c) c.token_actions
        → All (Elsewhere inc.location) c.token_actions
        → IsParsed c (queue_brc4 p chain from_json inc height created b c)
    unfolding queue_brc4
    queue_brc4-IsParsed inc height created (mint k v) c m q x =
        elim (Bool-cases (is_supported chain k)) [
          | inl supported ↦ rw supported (
              queue-IsParsed
                (TokenAction.mint inc.owner v inc.location.outpoint.txid inc.location.outpoint.vout)
                c q tt)
          | inr other ↦ rw other (q, refl, refl, refl)
        ]
    queue_brc4-IsParsed inc height created (deploy k v) c m q x =
        elim (Bool-cases (is_supported chain k)) [
          | inl supported ↦
              rw supported (queue-IsParsed (deploy_of inc height created v) c q (units-zero, m))
          | inr other ↦ rw other (q, refl, refl, refl)
        ]
    queue_brc4-IsParsed inc height created (transfer k v) c m q x =
        elim (Bool-cases (is_supported chain k)) [
          | inl supported ↦ rw supported (queue_transfer-IsParsed inc height v c q x)
          | inr other ↦ rw other (q, refl, refl, refl)
        ]

    if_allowed-MaxFits :
        (o : Option (Brc4 Amount)) → MaxFits o → MaxFits (if_allowed p chain from_json o)
    if_allowed-MaxFits none m = m
    if_allowed-MaxFits (some b) m = elim (Bool-cases (is_allowed p chain from_json b)) [
      | inl allowed ↦ rw allowed m
      | inr other ↦ rw other tt
    ]

    try_parse-MaxFits :
        (content_type content : Bytes)
        → MaxFits (from_json content)
        → MaxFits (try_parse p chain from_json content_type content)
    unfolding try_parse
    try_parse-MaxFits content_type content m = elim (Bool-cases (is_text chain content_type)) [
      | inl text ↦ rw text (if_allowed-MaxFits (from_json content) m)
      | inr other ↦ rw other tt
    ]

    queue_parsed-IsParsed :
        (inc : InscriptionTemplate) (height created : ℕ) (o : Option (Brc4 Amount))
        (c : TokenCache Amount)
        → MaxFits o
        → All (IsQueued p c) c.token_actions
        → All (Elsewhere inc.location) c.token_actions
        → IsParsed c (queue_parsed p chain from_json inc height created o c)
    unfolding queue_parsed
    queue_parsed-IsParsed inc height created none c m q x = (q, refl, refl, refl)
    queue_parsed-IsParsed inc height created (some b) c m q x =
        queue_brc4-IsParsed inc height created b c m q x

    parsed_of-MaxFits :
        (content_type content : Option Bytes)
        → ((content : Bytes) → MaxFits (from_json content))
        → MaxFits (parsed_of p chain from_json content_type content)
    unfolding parsed_of
    parsed_of-MaxFits none content m = tt
    parsed_of-MaxFits (some t) none m = tt
    parsed_of-MaxFits (some t) (some content) m = try_parse-MaxFits t content (m content)

    unleaked-IsParsed :
        (inc : InscriptionTemplate) (height created : ℕ) (leaked : Bool) (c : TokenCache Amount)
        → ((content : Bytes) → MaxFits (from_json content))
        → All (IsQueued p c) c.token_actions
        → All (Elsewhere inc.location) c.token_actions
        → IsParsed c (
            if leaked
            then c
            else queue_parsed p chain from_json inc height created
                (parsed_of p chain from_json inc.content_type inc.content)
                c)
    unleaked-IsParsed inc height created true c m q x = (q, refl, refl, refl)
    unleaked-IsParsed inc height created false c m q x =
        queue_parsed-IsParsed inc height created
          (parsed_of p chain from_json inc.content_type inc.content) c
          (parsed_of-MaxFits inc.content_type inc.content m) q x

    -- The actions that are queued stay as processing expects them, the new one is so too, and the
    -- tokens, the accounts and the valid transfers are unchanged. No transfer is queued at the
    -- location of the inscription before, and a maximum that is decoded fits `Fixed128`.
    pub parse_token_action-IsParsed :
        (inc : InscriptionTemplate) (height created : ℕ) (c : TokenCache Amount)
        → ((content : Bytes) → MaxFits (from_json content))
        → All (IsQueued p c) c.token_actions
        → All (Elsewhere inc.location) c.token_actions
        → IsParsed c (parse_token_action p chain from_json inc height created c)
    unfolding parse_token_action
    parse_token_action-IsParsed inc height created c m q x =
        elim (Bytes-discrete inc.owner p.op_return_hash) [
          | yes burned ↦
              rw (if_pos (Bytes-discrete inc.owner p.op_return_hash) burned) (q, refl, refl, refl)
          | no live ↦
              rw (if_neg (Bytes-discrete inc.owner p.op_return_hash) live)
                (unleaked-IsParsed inc height created inc.leaked c m q x)
        ]
