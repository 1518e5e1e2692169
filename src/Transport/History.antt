-- ===== src/Transport/History.antt =====
-- A `ReplayGuard` over a run of calls.
use mathlib.Core.List.{append-nil, append_assoc}
use mathlib.Core.Path.{subst}
use strongwiz.Base.{
  ℕ, ◌+◌, ◌-◌, ◌<◌, ◌≡◌, refl, sym, ap, ◌∙◌, ◌⊎◌, inl, inr, arith, String, Bool, true, false, ◌&&◌,
  List, [], ◌∷◌, ◌++◌, nat_eq, length, length-append, drop, drop-drop, drop_front, length-drop,
  is_digest, if◌then◌else◌, has_text, is_digest, Bool-cases,
}
use strongwiz.Base.Map.{empty}
use strongwiz.Base.Result.{Result, ok, err, is_ok, Result-cases}
use strongwiz.Transport.Frame.{TransportError, bad_identity, bad_digest}
use strongwiz.Transport.Replay.{
  Message, ReplayGuard, new_guard, remember, check_new, check_and_record,
}
use strongwiz.Transport.Window.{
  owner, Apart, keep_all, keep_last, IsSound, admits, check_new-admits, remember_lem,
}

-- what a call leaves: the admitted message behind the others, or the guard as it was
pub Recorded : ReplayGuard → Message → Result TransportError (Unit {0}) × ReplayGuard → Type 0
Recorded g (i, d) (r, h) =
    ((admits g.by_identity i d ≡ true)
      × (r ≡ ok tt)
      × IsSound h
      × (h.capacity ≡ g.capacity)
      × (h.by_identity ≡ keep_last g.capacity (g.by_identity ++ (i, d) ∷ [])))
    ⊎ ((admits g.by_identity i d ≡ false) × ((e : TransportError) × (r ≡ err e)) × (h ≡ g))

accepts :
    (g : ReplayGuard) (i d : String)
    → (has_text i && is_digest d) ≡ true
    → check_new i d g ≡ ok tt
    → check_and_record i d g ≡ (ok tt, remember i d g)
unfolding check_and_record
accepts g i d valid fresh = ground (arith, valid, fresh)

refuses :
    (g : ReplayGuard) (i d : String)
    → ((has_text i && is_digest d) ≡ false) ⊎ ((e : TransportError) × (check_new i d g ≡ err e))
    → (e : TransportError) × (check_and_record i d g ≡ (err e, g))
unfolding check_and_record
refuses g i d why = elim (Bool-cases (has_text i)) [
  | inr blank ↦ (bad_identity, ground (arith, blank))
  | inl some_text ↦ elim (Bool-cases (is_digest d)) [
    | inr odd ↦ (bad_digest, ground (arith, some_text, odd))
    | inl digest ↦ elim why [
      | inl invalid ↦ absurd (ground (arith, some_text, digest, invalid))
      | inr (e, seen) ↦ (e, ground (arith, some_text, digest, seen))
    ]
  ]
]

-- `check_and_record` of a sound guard accepts a message exactly when the identity has text, the digest is
-- one, and neither is in the window; then the window is the last `capacity` entries with the
-- message behind them, and the guard is sound again. Otherwise it raises and changes nothing.
pub check_and_record-Recorded :
    (g : ReplayGuard) (i d : String) → IsSound g → Recorded g (i, d) (check_and_record i d g)
unfolding check_and_record Recorded
check_and_record-Recorded g i d sound = elim (check_new-admits g i d sound) [
  | inr (e, seen, out) ↦
      let (x, run) = refuses g i d (inr (e, seen)) in
      subst (Recorded g (i, d)) (sym run) (inr (out, (x, refl), refl))
  | inl (fresh, unseen, unowned, same) ↦ elim (Bool-cases (has_text i && is_digest d)) [
    | inr invalid ↦
        let (x, run) = refuses g i d (inl invalid) in
        subst (Recorded g (i, d)) (sym run) (inr (same ∙ invalid, (x, refl), refl))
    | inl valid ↦ subst (Recorded g (i, d)) (sym (accepts g i d valid fresh)) (
        let (after, size, window) = remember_lem g i d sound unseen unowned in
        inl (same ∙ valid, refl, after, size, window))
  ]
]

-- a call that raised changed nothing
pub check_and_record_raised :
    (g h : ReplayGuard) (i d : String) (e : TransportError)
    → check_and_record i d g ≡ (err e, h)
    → h ≡ g
check_and_record_raised g h i d e raised = elim (Bool-cases (has_text i && is_digest d)) [
  | inr invalid ↦ let (x, run) = refuses g i d (inl invalid) in ground (arith, raised, run)
  | inl valid ↦ elim (Result-cases (check_new i d g)) [
    | inl (tt, fresh) ↦ absurd (ground (arith, raised, accepts g i d valid fresh))
    | inr failed ↦ let (x, run) = refuses g i d (inr failed) in ground (arith, raised, run)
  ]
]

-- the calls, in order, and the messages that they recorded
unfoldable pub run : List Message → ReplayGuard → List Message × ReplayGuard
run [] g = ([], g)
run ((i, d) ∷ calls) g =
    let (r, h) = check_and_record i d g in
    let (accepted, k) = run calls h in (if is_ok r then (i, d) ∷ accepted else accepted, k)

-- the window after `past` was accepted
record IsWindow (past : List Message) (n : ℕ) (g : ReplayGuard) : Type 0 where
  sound : IsSound g
  size : g.capacity ≡ n
  window : g.by_identity ≡ keep_last n past

keep_last-keep_last :
    (n : ℕ) (past : List Message) (e : Message)
    → keep_last n (keep_last n past ++ e ∷ []) ≡ keep_last n (past ++ e ∷ [])
keep_last-keep_last n past e =
    let a = length past - n in
    let front = drop_front a past (e ∷ []) (omega arith) in
    let size = length-append (drop a past) (e ∷ []) in
    let whole = length-append past (e ∷ []) in
    let over : a + (length (drop a past ++ e ∷ []) - n) ≡ length (past ++ e ∷ []) - n =
      omega (arith, size, whole, length-drop a past (omega arith)) in
    ap (drop (length (drop a past ++ e ∷ []) - n)) (sym front)
    ∙ drop-drop a (length (drop a past ++ e ∷ []) - n) (past ++ e ∷ [])
    ∙ ap (λ k. drop k (past ++ e ∷ [])) over

-- one call
step-IsWindow :
    (g h : ReplayGuard) (r : Result TransportError (Unit {0})) (i d : String) (past : List Message)
    (n : ℕ)
    → IsWindow past n g
    → Recorded g (i, d) (r, h)
    → IsWindow (past ++ (if is_ok r then (i, d) ∷ [] else [])) n h
unfolding Recorded
step-IsWindow g h r i d past n was (inl (_, done, sound, size, window)) = rw (done) (record {
  sound = sound;
  size = size ∙ was.size;
  window =
      window
      ∙ ap (λ c. keep_last c (g.by_identity ++ (i, d) ∷ [])) was.size
      ∙ ap (λ xs. keep_last n (xs ++ (i, d) ∷ [])) was.window
      ∙ keep_last-keep_last n past (i, d);
})
step-IsWindow g h r i d past n was (inr (_, (e, failed), same)) =
    rw (failed, append-nil past, same) was

extended :
    (past : List Message) (e : Message) (more : List Message) (b : Bool)
    → past ++ (if b then e ∷ [] else []) ++ more ≡ past ++ (if b then e ∷ more else more)
extended past e more true = append_assoc past (e ∷ []) more
extended past e more false = ap (λ xs. xs ++ more) (append-nil past)

run-IsWindow :
    (calls : List Message) (g : ReplayGuard) (past : List Message) (n : ℕ)
    → IsWindow past n g
    → IsWindow (past ++ (run calls g).0) n (run calls g).1
unfolding run
run-IsWindow [] g past n was = rw (append-nil past) was
run-IsWindow ((i, d) ∷ calls) g past n was =
    let (r, h) = check_and_record i d g in
    let next = step-IsWindow g h r i d past n was (check_and_record-Recorded g i d was.sound) in
    let rest = run-IsWindow calls h (past ++ (if is_ok r then (i, d) ∷ [] else [])) n next in
    subst (λ xs. IsWindow xs n (run calls h).1) (extended past (i, d) (run calls h).0 (is_ok r))
      rest

new_guard-IsWindow :
    (capacity : ℕ) (g : ReplayGuard) → new_guard capacity ≡ ok g → IsWindow [] capacity g
unfolding new_guard drop owner
new_guard-IsWindow capacity g made =
    let positive : 0 < capacity = ground (arith, made) in
    let start : g ≡ record { capacity = capacity; by_identity = []; by_digest = empty } =
      ground (arith, made) in
    subst (IsWindow [] capacity) (sym start) (record {
      sound = record {
        capacity_pos = positive;
        bounded = omega arith;
        apart = tt;
        inverse = λ _. refl;
      };
      size = refl;
      window = sym (keep_all capacity [] (omega arith));
    })

-- After any calls on a new guard, its window is the last `capacity` messages that it recorded, in
-- their order, and no two of these share their identity or their digest.
pub run-new_guard :
    (capacity : ℕ) (calls : List Message) (g : ReplayGuard)
    → new_guard capacity ≡ ok g
    → ((run calls g).1.by_identity ≡ keep_last capacity (run calls g).0)
      × Apart (keep_last capacity (run calls g).0)
run-new_guard capacity calls g made =
    let after = run-IsWindow calls g [] capacity (new_guard-IsWindow capacity g made) in
    (after.window, subst Apart after.window after.sound.apart)
