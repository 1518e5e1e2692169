-- ===== src/Accounts/Lineage.antt =====
-- What the calls on an account book keep: every version stands on the one before.
use strongwiz.Base.{
  ℕ, String, true, not, none, some, List, ◌==◌, ◌+◌, ◌≡◌, ◌⊎◌, inl, inr, refl, arith, is_present,
  all, string_eq, nat_eq, option_eq, pair_eq, Bool-cases, Option-cases, ◌||◌,
}
use strongwiz.Base.Map.{insert, has_key}
use strongwiz.Base.Result.{ok, err, Result-cases}
use strongwiz.Base.Exec.{Exec, ◌>>=◌, ◌>>◌, >>=-ok, >>=-err, lift}
use strongwiz.Accounts.Records.{
  header_eq, residual_eq, residual_status_eq, AccountHeader, AccountError, ResidualRecord,
  ResidualStatus, validate_header, validate_residual, validate_kind, unknown_version,
  unknown_residual,
}
use strongwiz.Accounts.Book.{
  AccountBook, AccountDigests, key_of, record_header, enter, require, require_residuals, root_of,
  open_root, child_of, open_child, successor_of, open_successor, version_of, open_version, occupy,
  register_residual, transition_residual, residual_of, changed_of, store_residual, keep_residual,
  differs_residual,
}

-- the account is at its first version, or the version before is in the book
abbrev pub Follows : AccountBook → AccountHeader → Type 0
Follows b h =
    (h.version ≡ 0) ⊎ ((n : ℕ) × (h.version ≡ n + 1) × (has_key b.headers (h.account_id, n) ≡ true))

-- what one call may do to a book
pub data Writes (b : AccountBook) : AccountBook → Type 0 where
  nothing : Writes b b
  opened :
      (h : AccountHeader)
      → (b.headers (key_of h) ≡ none) ⊎ (b.headers (key_of h) ≡ some h)
      → Follows b h
      → Writes b (record b { headers = insert (key_of h) h b.headers })
  noted :
      (r : ResidualRecord)
      → has_key b.headers (r.account_id, r.account_version) ≡ true
      → all (has_key b.residuals) r.parent_residual_ids ≡ true
      → Writes b (record b { residuals = insert r.residual_id r b.residuals })

validate_header_lem : (h g : AccountHeader) → validate_header h ≡ ok g → g ≡ h
unfolding validate_header validate_kind
validate_header_lem h g done = ground arith

record_header_cases :
    (h : AccountHeader) (b : AccountBook)
    → ((record_header h b).1 ≡ b)
      ⊎ (((b.headers (key_of h) ≡ none) ⊎ (b.headers (key_of h) ≡ some h))
          × ((record_header h b).1 ≡ record b { headers = insert (key_of h) h b.headers }))
unfolding record_header
record_header_cases h b = elim (Option-cases (b.headers (key_of h))) [
  | inl free ↦ inr (inl free, ground arith)
  | inr (g, taken) ↦ elim (Bool-cases (g == h)) [
    | inl same ↦ inr (inr (ground arith), ground arith)
    | inr other ↦ inl (ground arith)
  ]
]

record_header-Writes :
    (h : AccountHeader) (b : AccountBook) → Follows b h → Writes b (record_header h b).1
record_header-Writes h b follows = elim (record_header_cases h b) [
  | inl same ↦ rw same nothing
  | inr (free, done) ↦ rw done (opened h free follows)
]

enter-Writes : (h : AccountHeader) (b : AccountBook) → Follows b h → Writes b (enter h b).1
unfolding enter
enter-Writes h b follows = elim (Result-cases (validate_header h)) [
  | inr (e, bad) ↦ rw (enter, bad) nothing
  | inl (g, good) ↦
      let same = validate_header_lem h g good in
      rw (enter, good) (rw same (record_header-Writes h b follows))
]

require_cases :
    (k : String) (n : ℕ) (b : AccountBook)
    → ((e : AccountError) × (require k n b ≡ (err e, b)))
      ⊎ ((h : AccountHeader) × (require k n b ≡ (ok h, b)) × (has_key b.headers (k, n) ≡ true))
unfolding require
require_cases k n b = elim (Option-cases (b.headers (k, n))) [
  | inl absent ↦ inl (unknown_version, ground arith)
  | inr (h, here) ↦ inr (h, ground arith, ground arith)
]

require-Writes :
    {A : Type 0} (k : String) (n : ℕ) (b : AccountBook)
    (rest : AccountHeader → Exec AccountBook AccountError A)
    → ((h : AccountHeader) → has_key b.headers (k, n) ≡ true → Writes b (rest h b).1)
    → Writes b ((require k n >>= rest) b).1
require-Writes k n b rest f = elim (require_cases k n b) [
  | inl (e, refused) ↦ rw (>>=-err (require k n) rest refused) nothing
  | inr (h, there, known) ↦ rw (>>=-ok (require k n) rest there) (f h known)
]

validated-Writes :
    {A : Type 0} (h : AccountHeader) (b : AccountBook)
    (rest : AccountHeader → Exec AccountBook AccountError A)
    → Writes b (rest h b).1
    → Writes b ((lift (validate_header h) >>= rest) b).1
validated-Writes h b rest w = elim (Result-cases (validate_header h)) [
  | inr (e, bad) ↦ rw bad nothing
  | inl (g, good) ↦ let same = validate_header_lem h g good in rw good (rw same w)
]

validate_residual_lem : (r q : ResidualRecord) → validate_residual r ≡ ok q → q ≡ r
unfolding validate_residual
validate_residual_lem r q done = ground arith

-- the account is in the book, and so are the parents
abbrev Stands : AccountBook → ResidualRecord → Type 0
Stands b r =
    (has_key b.headers (r.account_id, r.account_version) ≡ true)
    × (all (has_key b.residuals) r.parent_residual_ids ≡ true)

store_residual-Writes :
    (r : ResidualRecord) (b : AccountBook) → Stands b r → Writes b (store_residual r b).1
unfolding store_residual
store_residual-Writes r b (account, parents) = noted r account parents

keep_residual-Writes :
    (r : ResidualRecord) (b : AccountBook) → Stands b r → Writes b (keep_residual r b).1
unfolding keep_residual
keep_residual-Writes r b stands =
    elim (Bool-cases (differs_residual (b.residuals r.residual_id) r)) [
      | inl differs ↦ rw (keep_residual, differs) nothing
      | inr fresh ↦ rw (keep_residual, fresh) (store_residual-Writes r b stands)
    ]

checked-Writes :
    (r : ResidualRecord) (b : AccountBook)
    (rest : ResidualRecord → Exec AccountBook AccountError ResidualRecord)
    → Writes b (rest r b).1
    → Writes b ((lift (validate_residual r) >>= rest) b).1
checked-Writes r b rest w = elim (Result-cases (validate_residual r)) [
  | inr (e, bad) ↦ rw bad nothing
  | inl (q, good) ↦ let same = validate_residual_lem r q good in rw good (rw same w)
]

module _ (d : AccountDigests) (b : AccountBook) where
  pub open_root-Writes : (s c : String) (ws : List String) → Writes b (open_root d s c ws b).1
  unfolding open_root root_of
  open_root-Writes s c ws = enter-Writes (root_of d s c ws) b (inl refl)

  module _ (h : AccountHeader) where
    pub open_child-Writes : (s c : String) (ws : List String) → Writes b (open_child d h s c ws b).1
    unfolding open_child child_of
    open_child-Writes s c ws =
        require-Writes h.account_id h.version b (λ _. enter (child_of d h s c ws))
          (λ _ known. enter-Writes (child_of d h s c ws) b (inl refl))

    pub open_successor-Writes :
        (s c : String) (ws : List String) → Writes b (open_successor d h s c ws b).1
    unfolding open_successor successor_of
    open_successor-Writes s c ws =
        require-Writes h.account_id h.version b (λ _. enter (successor_of d h s c ws))
          (λ _ known. enter-Writes (successor_of d h s c ws) b (inl refl))

    occupy-Writes : (g : AccountHeader) → Follows b g → Writes b (occupy d g b).1
    unfolding occupy
    occupy-Writes g follows = elim (Option-cases (b.headers (key_of g))) [
      | inl free ↦ rw (occupy, free) (record_header-Writes g b follows)
      | inr (x, taken) ↦ let same : (occupy d g b).1 ≡ b = ground arith in rw same nothing
    ]

    pub open_version-Writes :
        (c : String) (ws ms : List String) → Writes b (open_version d h c ws ms b).1
    unfolding open_version version_of
    open_version-Writes c ws ms =
        let v = version_of d h c ws ms in
        require-Writes h.account_id h.version b (λ _. lift (validate_header v) >>= occupy d)
          (λ _ known.
            validated-Writes v b (occupy d) (occupy-Writes v (inr (h.version, refl, known))))

    pub register_residual-Writes :
        (s : String) (refs : List String) → Writes b (register_residual d h s refs b).1
    unfolding register_residual residual_of
    register_residual-Writes s refs =
        let r = residual_of d h s refs in
        require-Writes h.account_id h.version b (λ _. lift (validate_residual r) >>= keep_residual)
          (λ _ known. checked-Writes r b keep_residual (keep_residual-Writes r b (known, refl)))

    -- the part of a transition after its first test
    abbrev changing : List String → ResidualRecord → Exec AccountBook AccountError ResidualRecord
    changing ids r = require_residuals ids >> (lift (validate_residual r) >>= store_residual)

    changing-Writes :
        (r : ResidualRecord)
        → has_key b.headers (r.account_id, r.account_version) ≡ true
        → Writes b (changing r.parent_residual_ids r b).1
    unfolding require_residuals
    changing-Writes r known =
        let ids = r.parent_residual_ids in
        let rest : Unit {0} → Exec AccountBook AccountError ResidualRecord =
          λ _. lift (validate_residual r) >>= store_residual in
        elim (Bool-cases (all (has_key b.residuals) ids)) [
          | inl parents ↦
              let all_known : require_residuals ids b ≡ (ok tt, b) = ground arith in
              rw (>>=-ok (require_residuals ids) rest all_known)
                (checked-Writes r b store_residual (store_residual-Writes r b (known, parents)))
          | inr missing ↦
              let unknown : require_residuals ids b ≡ (err unknown_residual, b) = ground arith in
              rw (>>=-err (require_residuals ids) rest unknown) nothing
        ]

    pub transition_residual-Writes :
        (ids : List String) (s : String) (status : ResidualStatus) (refs : List String)
        (reason : String)
        → Writes b (transition_residual d ids h s status refs reason b).1
    unfolding transition_residual changed_of
    transition_residual-Writes ids s status refs reason =
        let r = changed_of d ids h s status refs reason in
        let goes =
          require-Writes h.account_id h.version b (λ _. changing ids r)
            (λ _ known. changing-Writes r known) in
        elim (Bool-cases (not (is_present ids) || status == ResidualStatus.active)) [
          | inl refused ↦ rw (transition_residual, refused) nothing
          | inr fine ↦ rw (transition_residual, fine) goes
        ]
