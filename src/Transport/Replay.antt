-- ===== src/Transport/Replay.antt =====
-- `ReplayGuard` of transport.py, and the read that asks it. Its lock makes a call one step.
use strongwiz.Base.{
  ℕ, String, not, Option, none, some, List, [], ◌∷◌, ◌++◌, ◌==◌, string_eq, nat_eq, option_eq, ltb,
  length, if◌then◌else◌, has_text, is_digest,
}
use strongwiz.Base.Map.{Map, empty, insert}
use strongwiz.Base.Result.{Result, ok, err}
use strongwiz.Base.Exec.{Exec, pure, ◌>>=◌, ◌>>◌, raise_if, modify, lift}
use strongwiz.Canonical.Json.{Json, str, dict, Fields, end, field}
use strongwiz.Transport.Frame.{
  TransportError, duplicate_frame, identity_reuse, payload_replay, bad_limit, bad_identity,
  bad_digest, bad_field, no_object, no_identity, Wire, DecodedFrame,
}
use strongwiz.Transport.Device.{Device, read_frame_record}

-- an accepted identity and the digest of its content
abbrev pub Message : Type 0
Message = String × String

-- `_by_identity` is in the order of its insertions, the oldest first.
pub record ReplayGuard : Type 0 where
  pub capacity : ℕ
  pub by_identity : List Message
  pub by_digest : Map String String

-- `_by_identity.get`
unfoldable pub digest_of : List Message → String → Option String
digest_of [] identity = none
digest_of ((i, d) ∷ rest) identity = if identity == i then some d else digest_of rest identity

-- `del d[k]`
abbrev pub remove : String → Map String String → Map String String
remove k d j = if j == k then none else d j

unfoldable pub new_guard : ℕ → Result TransportError ReplayGuard
new_guard capacity =
    if capacity == 0
    then err bad_limit
    else ok (record { capacity = capacity; by_identity = []; by_digest = empty })

-- the oldest entry goes, and that of its digest
unfoldable pub expire : Message → List Message → ReplayGuard → ReplayGuard
expire (i, d) rest g = record g {
  by_identity = rest;
  by_digest = if g.by_digest d == some i then remove d g.by_digest else g.by_digest;
}

-- `_by_identity.popitem(last=False)`, where there are too many
unfoldable pub evict : List Message → ReplayGuard → ReplayGuard
evict [] g = g
evict (oldest ∷ rest) g = if ltb g.capacity (length g.by_identity) then expire oldest rest g else g

-- The identity is new here, so that its entry is the last one.
unfoldable pub remember : String → String → ReplayGuard → ReplayGuard
remember identity payload_sha256 g =
    let entries = g.by_identity ++ (identity, payload_sha256) ∷ [] in
    evict entries
      (record g { by_identity = entries; by_digest = insert payload_sha256 identity g.by_digest })

unfoldable pub check_new : String → String → ReplayGuard → Result TransportError (Unit {0})
check_new identity payload_sha256 g = elim (digest_of g.by_identity identity) [
  | some prior_digest ↦
      err (if prior_digest == payload_sha256 then duplicate_frame else identity_reuse)
  | none ↦ elim (g.by_digest payload_sha256) [
    | some prior_identity ↦ err payload_replay
    | none ↦ ok tt
  ]
]

unfoldable pub check_and_record : String → String → Exec ReplayGuard TransportError (Unit {0})
check_and_record identity payload_sha256 =
    raise_if (not (has_text identity)) bad_identity
    >> (raise_if (not (is_digest payload_sha256)) bad_digest
        >> ((λ g. (check_new identity payload_sha256 g, g))
            >> modify (remember identity payload_sha256)))

-- `frame.value.get`
unfoldable pub get_field : Fields → String → Option Json
get_field end key = none
get_field (field k v rest) key = if key == k then some v else get_field rest key

-- the identity that a frame declares
unfoldable pub identity_of : String → Json → Result TransportError String
identity_of identity_field (dict fields) = elim (get_field fields identity_field) [
  | some (str identity) ↦ if has_text identity then ok identity else err no_identity
  | _ ↦ err no_identity
]
identity_of identity_field _ = err no_object

module _ {S : Type 0} (d : Device S) (w : Wire) where
  -- an action on the stream, or on the guard, of the two
  abbrev pub on_stream :
      {A : Type 0} → Exec S TransportError A → Exec (S × ReplayGuard) TransportError A
  on_stream m (s, g) = let (r, t) = m s in (r, (t, g))

  abbrev pub on_guard :
      {A : Type 0} → Exec ReplayGuard TransportError A → Exec (S × ReplayGuard) TransportError A
  on_guard m (s, g) = let (r, h) = m g in (r, (s, h))

  unfoldable pub read_identified_frame :
      String → ℕ → Option ℕ → Exec (S × ReplayGuard) TransportError DecodedFrame
  read_identified_frame identity_field max_payload_bytes timeout =
      raise_if (not (has_text identity_field)) bad_field
      >> (on_stream (read_frame_record d w max_payload_bytes timeout) >>= λ frame.
          lift (identity_of identity_field frame.value) >>= λ identity.
          on_guard (check_and_record identity frame.receipt.payload_sha256) >> pure frame)
