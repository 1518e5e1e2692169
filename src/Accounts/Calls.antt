-- ===== src/Accounts/Calls.antt =====
-- Sequences of calls on one account book, raised ones among them.
use strongwiz.Base.{
  ℕ, String, true, some, List, [], ◌∷◌, ◌==◌, ◌+◌, ◌≡◌, inl, inr, refl, arith, all, string_eq,
  nat_eq, option_eq, pair_eq, Bool-cases,
}
use strongwiz.Base.Map.{Map, insert, has_key}
use strongwiz.Accounts.Records.{AccountHeader, ResidualRecord, ResidualStatus}
use strongwiz.Accounts.Book.{
  AccountBook, AccountDigests, new_book, key_of, open_root, open_child, open_successor,
  open_version, register_residual, transition_residual,
}
use strongwiz.Accounts.Lineage.{
  Writes, nothing, opened, noted, open_root-Writes, open_child-Writes, open_successor-Writes,
  open_version-Writes, register_residual-Writes, transition_residual-Writes,
}

-- a call of a method that writes, with the headers that the caller hands over
pub data Call : Type 0 where
  root : String → String → List String → Call
  child successor : AccountHeader → String → String → List String → Call
  version : AccountHeader → String → List String → List String → Call
  residual : AccountHeader → String → List String → Call
  change : List String → AccountHeader → String → ResidualStatus → List String → String → Call

-- Each header is stored under its own identity and version, and a version above the first stands on
-- the one before; each residual stands on a stored account and on stored parents.
pub record IsOrdered (b : AccountBook) : Type 0 where
  pub keyed : (k : String × ℕ) (h : AccountHeader) → b.headers k ≡ some h → key_of h ≡ k
  pub gapless :
      (k : String) (n : ℕ) (h : AccountHeader)
      → b.headers (k, n + 1) ≡ some h
      → has_key b.headers (k, n) ≡ true
  pub standing :
      (k : String) (r : ResidualRecord)
      → b.residuals k ≡ some r
      → (has_key b.headers (r.account_id, r.account_version) ≡ true)
        × (all (has_key b.residuals) r.parent_residual_ids ≡ true)

-- what was stored is still there
pub record IsKept (b c : AccountBook) : Type 0 where
  pub headers : (k : String × ℕ) (h : AccountHeader) → b.headers k ≡ some h → c.headers k ≡ some h
  pub residuals : (k : String) → has_key b.residuals k ≡ true → has_key c.residuals k ≡ true

has_key-insert :
    (m : Map String ResidualRecord) (k : String) (v : ResidualRecord) (ks : List String)
    → all (has_key m) ks ≡ true
    → all (has_key (insert k v m)) ks ≡ true
has_key-insert m k v [] h = refl
has_key-insert m k v (x ∷ xs) h = ground (arith, has_key-insert m k v xs)

Writes-IsKept : (b c : AccountBook) → Writes b c → IsKept b c
Writes-IsKept b c nothing = record { headers = λ k h at. at; residuals = λ k at. at }
Writes-IsKept b c (opened h free follows) = record {
  headers = λ k g at. elim (Bool-cases (k == key_of h)) [
    | inl this ↦ ground arith
    | inr other ↦ ground arith
  ];
  residuals = λ k at. at;
}
Writes-IsKept b c (noted r account parents) = record {
  headers = λ k h at. at;
  residuals = λ k at. ground arith;
}

Writes-IsOrdered : (b c : AccountBook) → IsOrdered b → Writes b c → IsOrdered c
Writes-IsOrdered b c ordered nothing = ordered
Writes-IsOrdered b c ordered (opened h free follows) = record {
  keyed = λ k g at. elim (Bool-cases (k == key_of h)) [
    | inl this ↦ ground arith
    | inr other ↦ ordered.keyed k g (ground arith)
  ];
  gapless = λ k n g at. elim (Bool-cases ((k, n + 1) == key_of h)) [
    | inl this ↦ ground arith
    | inr other ↦ ground (arith, ordered.gapless k n g)
  ];
  standing = λ k r at. ground (arith, ordered.standing k r at);
}
Writes-IsOrdered b c ordered (noted r account parents) = record {
  keyed = ordered.keyed;
  gapless = ordered.gapless;
  standing = λ k q at. elim (Bool-cases (k == r.residual_id)) [
    | inl this ↦
        let same : r ≡ q = ground arith in
        rw (← same)
          (account, has_key-insert b.residuals r.residual_id r r.parent_residual_ids parents)
    | inr other ↦
        let (there, older) = ordered.standing k q (ground arith) in
        (there, has_key-insert b.residuals r.residual_id r q.parent_residual_ids older)
  ];
}

module _ (d : AccountDigests) where
  -- the book that a call leaves, whether it returned or raised
  unfoldable pub step : Call → AccountBook → AccountBook
  step (root s c ws) b = (open_root d s c ws b).1
  step (child h s c ws) b = (open_child d h s c ws b).1
  step (successor h s c ws) b = (open_successor d h s c ws b).1
  step (version h c ws ms) b = (open_version d h c ws ms b).1
  step (residual h s refs) b = (register_residual d h s refs b).1
  step (change ids h s status refs reason) b =
      (transition_residual d ids h s status refs reason b).1

  unfoldable pub calls : List Call → AccountBook → AccountBook
  unfolding step
  calls [] b = b
  calls (x ∷ xs) b = calls xs (step x b)

  step-Writes : (x : Call) (b : AccountBook) → Writes b (step x b)
  unfolding step
  step-Writes (root s c ws) b = open_root-Writes d b s c ws
  step-Writes (child h s c ws) b = open_child-Writes d b h s c ws
  step-Writes (successor h s c ws) b = open_successor-Writes d b h s c ws
  step-Writes (version h c ws ms) b = open_version-Writes d b h c ws ms
  step-Writes (residual h s refs) b = register_residual-Writes d b h s refs
  step-Writes (change ids h s status refs reason) b =
      transition_residual-Writes d b h ids s status refs reason

  calls-IsOrdered_from : (xs : List Call) (b : AccountBook) → IsOrdered b → IsOrdered (calls xs b)
  unfolding calls
  calls-IsOrdered_from [] b ordered = ordered
  calls-IsOrdered_from (x ∷ xs) b ordered =
      calls-IsOrdered_from xs (step x b) (Writes-IsOrdered b (step x b) ordered (step-Writes x b))

  -- After any calls on a new book, raised ones among them and with any headers handed over, each
  -- header is stored under its own identity and version, a version above the first has the one
  -- before in the book, and each residual has its account and its parents there.
  pub calls-IsOrdered : (xs : List Call) → IsOrdered (calls xs new_book)
  unfolding new_book
  calls-IsOrdered xs = calls-IsOrdered_from xs new_book (record {
    keyed = λ k h at. absurd (ground arith);
    gapless = λ k n h at. absurd (ground arith);
    standing = λ k r at. absurd (ground arith);
  })

  -- No calls remove or rewrite a header of a book, and none remove a residual.
  pub calls-IsKept : (xs : List Call) (b : AccountBook) → IsKept b (calls xs b)
  unfolding calls
  calls-IsKept [] b = record { headers = λ k h at. at; residuals = λ k at. at }
  calls-IsKept (x ∷ xs) b =
      let now = Writes-IsKept b (step x b) (step-Writes x b) in
      let later = calls-IsKept xs (step x b) in
      record {
        headers = λ k h at. later.headers k h (now.headers k h at);
        residuals = λ k at. later.residuals k (now.residuals k at);
      }
