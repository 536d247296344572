-- ===== src/Discovery/Explorer/Candidates.antt =====
-- What `order_candidates` of app/engine/discovery/explorer.py promises: each topic once, and the topics
-- that hand the call over last.
use qa_test_backend.Prelude.{
  text_eq→≡, ℕ, ◌+◌, ◌≡◌, refl, ap, ◌∙◌, Bool, true, false, List, [], ◌∷◌, ◌++◌, String, any,
  text_eq, count_where, arith, All, if◌then◌else◌,
}
use qa_test_backend.Discovery.Graph.{contains}
use qa_test_backend.Discovery.Explorer.{split_candidates, order_candidates}

count_where-append {ℓ} :
    {A : Type ℓ} (p : A → Bool) (xs ys : List A)
    → count_where p (xs ++ ys) ≡ count_where p xs + count_where p ys
unfolding count_where
count_where-append p [] ys = omega arith
count_where-append p (x ∷ xs) ys = omega (arith, count_where-append p xs ys)

module _ (casefold : String → String) (names_handoff : String → Bool) where
  abbrev names : String → String → Bool
  names key c = text_eq (casefold c) key

  abbrev once : Bool → ℕ
  once b = if b then 1 else 0

  repeated :
      (c : String) (seen : List String) (key : String)
      → text_eq (casefold c) key ≡ true
      → contains (casefold c) seen ≡ contains key seen
  repeated c seen key h = ap (λ k. contains k seen) (text_eq→≡ (casefold c) key h)

  split_candidates-count :
      (key : String) (cs seen : List String)
      → count_where (names key) (split_candidates casefold names_handoff seen cs).0
          + count_where (names key) (split_candidates casefold names_handoff seen cs).1
        ≡ (if contains key seen then 0 else once (any (names key) cs))
  unfolding split_candidates count_where any
  split_candidates-count key [] seen = ground arith
  split_candidates-count key (c ∷ cs) seen = ground (
    arith,
    repeated c seen key,
    split_candidates-count key cs seen,
    split_candidates-count key cs (casefold c ∷ seen),
  )

  order_candidates-count :
      (key : String) (cs : List String)
      → count_where (names key) (order_candidates casefold names_handoff cs)
        ≡ once (any (names key) cs)
  unfolding order_candidates any
  order_candidates-count key cs =
      count_where-append (names key) (split_candidates casefold names_handoff [] cs).0 _
      ∙ split_candidates-count key cs []

  split_candidates-sorted :
      (cs seen : List String)
      → All (λ c. names_handoff c ≡ false) (split_candidates casefold names_handoff seen cs).0
        × All (λ c. names_handoff c ≡ true) (split_candidates casefold names_handoff seen cs).1
  unfolding split_candidates
  split_candidates-sorted [] seen = (tt, tt)
  split_candidates-sorted (c ∷ cs) seen =
      ground
        (arith, split_candidates-sorted cs seen, split_candidates-sorted cs (casefold c ∷ seen))

  -- The ordered topics: those that ask for a person come last, and each topic stands as often as `once` says.
  pub record IsOrderingOf (cs : List String) (ordered : List String) : Type 0 where
    pub plain : List String
    pub handoffs : List String
    pub parts : ordered ≡ plain ++ handoffs
    pub plain_first : All (λ c. names_handoff c ≡ false) plain
    pub handoffs_last : All (λ c. names_handoff c ≡ true) handoffs
    pub each_once : (key : String) → count_where (names key) ordered ≡ once (any (names key) cs)

  -- Whatever topics are proposed, in the order of the exploration each of them stands exactly once, where
  -- texts that casefold alike are one topic, no other topic does, and those that ask for a person are last.
  pub order_candidates-IsOrderingOf :
      (cs : List String) → IsOrderingOf cs (order_candidates casefold names_handoff cs)
  unfolding order_candidates
  order_candidates-IsOrderingOf cs = record {
    plain = (split_candidates casefold names_handoff [] cs).0;
    handoffs = (split_candidates casefold names_handoff [] cs).1;
    parts = refl;
    plain_first = (split_candidates-sorted cs []).0;
    handoffs_last = (split_candidates-sorted cs []).1;
    each_once = λ key. order_candidates-count key cs;
  }
