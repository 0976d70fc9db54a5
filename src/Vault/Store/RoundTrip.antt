-- ===== src/Vault/Store/RoundTrip.antt =====
-- The round trip of crates/guardian-broker/src/vault.rs: restoring what was tokenized.
use project_guardian.Common.{
  leb, trim, member, not, ◌&&◌, ℕ, zero, suc, ◌-◌, ◌≤◌, ◌<◌, Bool, true, false, Option, none, some,
  List, [], ◌∷◌, ◌++◌, Text, length, length-append, take, drop, contains, Map, lookup, lookup-put,
  text_eq_iff, All, ◌≡◌, refl, ap, ◌∙◌, arith, Bool-cases, inl, inr, ltb, if◌then◌else◌,
}
use mathlib.Core.List.{append_assoc}
use project_guardian.Vault.Spans.{Span, slice, candidates}
use project_guardian.Vault.Spans.Forward.{IsForward, candidates-IsForward}
use project_guardian.Vault.Store.{
  DataVault, new, learn, opening, closing, id_of, random_id, hex_of, hex_digit, wrap, mint,
  token_for, replace, tokenize, split_at_first, restore, detokenize,
}
use project_guardian.Vault.Store.Texts.{
  IsOpaque, split_at_first-opening, split_at_first-closing, split_at_first-eq-none, contains-take,
  contains-drop, slice-drop,
}

-- Every value of the first table is a value of the second.
abbrev pub Within : Map Text → Map Text → Type 0
Within m n = (id value : Text) → lookup id m ≡ some value → lookup id n ≡ some value

hex-IsOpaque : (s : Text) → IsOpaque (hex_of s)
unfolding hex_of hex_digit
hex-IsOpaque [] = tt
hex-IsOpaque (b ∷ s) = ground (arith, hex-IsOpaque s)

module _ (entropy : ℕ → Option Text) (address : ℕ → Text) where
  -- The first so many ids are drawn from 16 random bytes each and differ from each other.
  pub record IsRandom (bound : ℕ) : Type 0 where
    pub drawn : (n : ℕ) → n < bound → (b : Text) × (entropy n ≡ some b) × (length b ≡ 16)
    pub distinct :
        (m n : ℕ)
        → m < bound
        → n < bound
        → id_of entropy address m ≡ id_of entropy address n
        → m ≡ n

  -- The two tables agree, their ids hold no closing bracket, and the ids to come, up to the bound, are not
  -- in use.
  pub record IsConsistent (bound : ℕ) (v : DataVault) : Type 0 where
    pub agree :
        (value id : Text)
        → lookup value v.by_value ≡ some id
        → (lookup id v.by_id ≡ some value) × IsOpaque id
    pub fresh : (n : ℕ) → v.drawn ≤ n → n < bound → lookup (id_of entropy address n) v.by_id ≡ none

  pub new-IsConsistent : (bound : ℕ) → IsConsistent bound new
  unfolding new lookup
  new-IsConsistent bound = record { agree = λ value id h. ground arith; fresh = λ n h k. refl }

  known-IsConsistent :
      (bound : ℕ) (b : Bool) (known : List Text) (v : DataVault)
      → IsConsistent bound v
      → IsConsistent bound (if b then record v { known = known } else v)
  known-IsConsistent bound true known v i = record { agree = i.agree; fresh = i.fresh }
  known-IsConsistent bound false known v i = i

  pub learn-IsConsistent :
      (bound : ℕ) (value : Text) (v : DataVault)
      → IsConsistent bound v
      → IsConsistent bound (learn value v)
  unfolding learn
  learn-IsConsistent bound value v i =
      known-IsConsistent bound (leb 4 (length (trim value)) && not (member (trim value) v.known))
        (v.known ++ trim value ∷ []) v i

  id_of-IsOpaque :
      (bound : ℕ) → IsRandom bound → (n : ℕ) → n < bound → IsOpaque (id_of entropy address n)
  unfolding random_id
  id_of-IsOpaque bound r n small = let (b, drawn, _) = r.drawn n small in rw drawn (hex-IsOpaque b)

  -- A token stands for its value in the vault after it.
  record IsTokened (bound : ℕ) (value token : Text) (v v' : DataVault) : Type 0 where
    id : Text
    wrapped : token ≡ opening ++ (id ++ closing)
    opaque : IsOpaque id
    held : lookup id v'.by_id ≡ some value
    within : Within v.by_id v'.by_id
    consistent : IsConsistent bound v'

  mint-IsTokened :
      (bound : ℕ) (value : Text) (o : Option Text) (v : DataVault)
      → IsRandom bound
      → IsConsistent bound v
      → lookup value v.by_value ≡ o
      → let t = mint entropy address value o v in
        t.1.drawn ≤ bound → IsTokened bound value t.0 v t.1
  unfolding mint wrap
  mint-IsTokened bound value (some id) v r i h small = record {
    id = id;
    wrapped = refl;
    opaque = (i.agree value id h).1;
    held = (i.agree value id h).0;
    within = λ id value h. h;
    consistent = i;
  }
  mint-IsTokened bound value none v r i h small =
      let id = id_of entropy address v.drawn in
      let unused = i.fresh v.drawn (omega arith) (omega (arith, small)) in
      record {
        id = id;
        wrapped = refl;
        opaque = id_of-IsOpaque bound r v.drawn (omega (arith, small));
        held = ground (arith, lookup-put id id value v.by_id, text_eq_iff id id);
        within = λ j w k. ground (arith, lookup-put id j value v.by_id, text_eq_iff id j, unused);
        consistent = record {
          agree = λ w j k. ground (
            arith,
            lookup-put value w id v.by_value,
            text_eq_iff value w,
            lookup-put id j value v.by_id,
            text_eq_iff id j,
            unused,
            id_of-IsOpaque bound r v.drawn (omega (arith, small)),
            i.agree w j,
          );
          fresh = λ n k in_bound. ground (
            arith,
            small,
            in_bound,
            lookup-put id (id_of entropy address n) value v.by_id,
            text_eq_iff id (id_of entropy address n),
            r.distinct v.drawn n,
            i.fresh n,
          );
        };
      }

  -- One round of `restore`, at a token.
  restore-token :
      (fuel : ℕ) (m : Map Text) (text before after id value rest : Text)
      → split_at_first opening text ≡ some (before, after)
      → split_at_first closing after ≡ some (id, rest)
      → lookup id m ≡ some value
      → restore (suc fuel) m text ≡ before ++ (value ++ restore fuel m rest)
  unfolding restore
  restore-token fuel m text before after id value rest h o k = rw (restore, h, o, k) refl

  restore-plain :
      (fuel : ℕ) (m : Map Text) (text : Text)
      → contains text opening ≡ false
      → length text < fuel
      → restore fuel m text ≡ text
  unfolding restore
  restore-plain zero m text h n = absurd (omega arith)
  restore-plain (suc fuel) m text h n = rw (restore, split_at_first-eq-none opening text h) refl

  -- The text behind a token that stands for a span, once it is restored.
  restore-span :
      (m : Map Text) (text : Text) (pos s e : ℕ) (id token out : Text)
      → contains text opening ≡ false
      → IsOpaque id
      → lookup id m ≡ some (slice text s e)
      → token ≡ opening ++ (id ++ closing)
      → pos ≤ s
      → s ≤ e
      → ((fuel : ℕ) → length out < fuel → restore fuel m out ≡ drop e text)
      → (fuel : ℕ) → length (slice text pos s ++ (token ++ out)) < fuel
      → restore fuel m (slice text pos s ++ (token ++ out)) ≡ drop pos text
  restore-span m text pos s e id token out h o k w p q rest zero n = absurd (omega arith)
  restore-span m text pos s e id token out h o k w p q rest (suc fuel) n =
      let before = slice text pos s in
      let behind = id ++ (closing ++ out) in
      let shape : token ++ out ≡ opening ++ behind =
        ap (λ (t : Text). t ++ out) w
        ∙ append_assoc opening (id ++ closing) out
        ∙ ap (λ (t : Text). opening ++ t) (append_assoc id closing out) in
      restore-token fuel m (before ++ (token ++ out)) before behind id (slice text s e) out
        (ap (λ (t : Text). split_at_first opening (before ++ t)) shape
          ∙ split_at_first-opening before behind (
              contains-take (s - pos) (drop pos text) b'[' (drop 1 opening)
                (contains-drop pos text opening h)))
        (split_at_first-closing id out o) k
      ∙ ap (λ (t : Text). before ++ (slice text s e ++ t))
          (rest fuel (
            omega (
              arith,
              n,
              length-append before (token ++ out),
              length-append token out,
              ap length w,
            )))
      ∙ ap (λ (t : Text). before ++ t) (slice-drop s e text q)
      ∙ slice-drop pos s text p

  -- What `replace` gives, restored by any table that holds at least its ids.
  record IsRestored (bound : ℕ) (text : Text) (pos : ℕ) (v : DataVault) (t : Text × DataVault)
      : Type 0 where
    consistent : IsConsistent bound t.1
    within : Within v.by_id t.1.by_id
    restored :
        (m : Map Text) (fuel : ℕ)
        → Within t.1.by_id m
        → length t.0 < fuel
        → restore fuel m t.0 ≡ drop pos text

  -- Ids are only ever drawn.
  mint-drawn :
      (value : Text) (o : Option Text) (v : DataVault)
      → v.drawn ≤ (mint entropy address value o v).1.drawn
  unfolding mint
  mint-drawn value (some id) v = omega arith
  mint-drawn value none v = omega arith

  replace-drawn :
      (text : Text) (spans : List Span) (pos : ℕ) (v : DataVault)
      → v.drawn ≤ (replace entropy address text spans pos v).1.drawn
  unfolding replace token_for
  replace-drawn text [] pos v = omega arith
  replace-drawn text ((s, e) ∷ spans) pos v = elim (Bool-cases (ltb s pos)) [
    | inl skip ↦ rw skip (replace-drawn text spans pos v)
    | inr take ↦
        let value = slice text s e in
        let t = token_for entropy address value v in
        let first = mint-drawn value (lookup value v.by_value) v in
        let rest = replace-drawn text spans e t.1 in rw take (omega (arith, first, rest))
  ]

  replace-IsRestored :
      (bound : ℕ) (text : Text) (spans : List Span) (pos : ℕ) (v : DataVault)
      → IsRandom bound
      → contains text opening ≡ false
      → All IsForward spans
      → IsConsistent bound v
      → (replace entropy address text spans pos v).1.drawn ≤ bound
      → IsRestored bound text pos v (replace entropy address text spans pos v)
  unfolding replace
  replace-IsRestored bound text [] pos v r h f i small = record {
    consistent = i;
    within = λ id value k. k;
    restored =
        λ m fuel w n. restore-plain fuel m (drop pos text) (contains-drop pos text opening h) n;
  }
  replace-IsRestored bound text ((s, e) ∷ spans) pos v r h f i small =
      elim (Bool-cases (ltb s pos)) [
        | inl skip ↦
            rw skip (replace-IsRestored bound text spans pos v r h f.1 i (rw skip at small))
        | inr take ↦
            let value = slice text s e in
            let t = token_for entropy address value v in
            let later = replace-drawn text spans e t.1 in
            let all_drawn = rw take at small in
            let token =
              mint-IsTokened bound value (lookup value v.by_value) v r i refl
                (unfold token_for in omega (arith, later, all_drawn)) in
            let rest =
              replace-IsRestored bound text spans e t.1 r h f.1 token.consistent all_drawn in
            rw take (record {
              consistent = rest.consistent;
              within = λ id w k. rest.within id w (token.within id w k);
              restored = λ m fuel w n.
                  restore-span m text pos s e token.id t.0
                    (replace entropy address text spans e t.1).0 h token.opaque
                    (w token.id value (rest.within token.id value token.held)) token.wrapped
                    (ground (arith, take)) f.0 (λ fuel' n'. rest.restored m fuel' w n') fuel n;
            })
      ]

  -- Where every id that is drawn up to the end comes from 16 random bytes and these ids are distinct, and
  -- the vault was consistent: restoring a text that was tokenized gives the text back, if it holds no
  -- opening mark itself; the vault stays consistent.
  pub detokenize-tokenize :
      (bound : ℕ) (text : Text) (v : DataVault)
      → IsRandom bound
      → IsConsistent bound v
      → (tokenize entropy address text v).1.drawn ≤ bound
      → contains text opening ≡ false
      → let t = tokenize entropy address text v in
        (detokenize t.1 t.0 ≡ text) × IsConsistent bound t.1
  unfolding tokenize detokenize
  detokenize-tokenize bound text v r i small h =
      let all =
        replace-IsRestored bound text (candidates v.known text) 0 v r h
          (candidates-IsForward v.known text) i small in
      (
        all.restored (tokenize entropy address text v).1.by_id
            (suc (length (tokenize entropy address text v).0)) (λ id value k. k) (omega arith),
        all.consistent,
      )
