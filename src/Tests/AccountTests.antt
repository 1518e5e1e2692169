-- ===== src/Tests/AccountTests.antt =====
-- A root account with a second version and a residual.
use strongwiz.Base.{List, [], ◌∷◌, string_eq, nat_eq, option_eq}
use strongwiz.Accounts.Records.{AccountHeader}
use strongwiz.Accounts.Book.{AccountDigests, new_book, root_of}
use strongwiz.Accounts.Calls.{
  Call, root, child, version, residual, calls, IsOrdered, IsKept, calls-IsOrdered, calls-IsKept,
}

abbrev digests : AccountDigests
digests = record {
  of_header = λ h. h.cut_ref;
  opening = λ _ scope cut _ _. cut;
  noting = λ _ _ _ statement. statement;
  changing = λ _ _ reason _ _ _. reason;
}

abbrev opening : AccountHeader
opening = root_of digests "scope" "cut" ("w" ∷ [])

abbrev script : List Call
script =
    root "scope" "cut" ("w" ∷ [])
    ∷ version opening "next" ("w" ∷ []) ("m" ∷ [])
    ∷ residual opening "left over" ("e" ∷ [])
    ∷ []

calls-IsOrdered_example : IsOrdered (calls digests script new_book)
calls-IsOrdered_example = calls-IsOrdered digests script

calls-IsKept_example :
    IsKept (calls digests script new_book) (
      calls digests (child opening "scope" "other" ("w" ∷ []) ∷ []) (calls digests script new_book))
calls-IsKept_example =
    calls-IsKept digests (child opening "scope" "other" ("w" ∷ []) ∷ [])
      (calls digests script new_book)
