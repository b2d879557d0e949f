-- ===== src/Hub/Ingest/Authorized.antt =====
-- For whom call events are stored.
use go_signing_server_anywhe.Prelude.{
  ℕ, String, ◌≡◌, refl, sym, ap, ◌∙◌, ◌≢◌, ◌⊎◌, inl, inr, Bool, true, false, Option, none, some,
  List, [], ◌∷◌, ◌++◌, arith, if◌then◌else◌, Bool-cases, ℤ, pos, int_beq_iff, ◌==◌, nat_eq, int_eq,
  string_eq,
}
use go_signing_server_anywhe.Text.{is_empty}
use go_signing_server_anywhe.Text.Bytes.{bytes}
use go_signing_server_anywhe.Util.{as_non_empty_string}
use go_signing_server_anywhe.Auth.Ingest.{
  IngestPayload, TokenVerdict, accepted, denied, verify_ingest_token,
}
use go_signing_server_anywhe.Db.Tables.{Store, ClientRow, CallEvent}
use go_signing_server_anywhe.Db.Clients.{get_client_by_id}
use go_signing_server_anywhe.Db.SignIn.{get_client_id_by_device_id, insert_call_event}
use go_signing_server_anywhe.Hub.Types.{Config}
use go_signing_server_anywhe.Hub.Types.Json.{Msg, Value, field}
use go_signing_server_anywhe.Hub.World.{Env}
use go_signing_server_anywhe.Hub.Ingest.{
  Sender, sender, turned_away, token_sender, device_sender, sender_of, duration_of, event_fields,
  Response, fail, insert_events, take_events, events_from, bearer, post_call_events,
}

-- A client that events may be stored for: the one of the token, which is enabled and in the
-- token's organization, or the one of the device where tokens are not required.
abbrev pub MaySend : Config → TokenVerdict → Msg → Store → ℤ → Type 0
MaySend cfg v payload s id =
    ((p : IngestPayload) × (c : ClientRow) × (v ≡ accepted p)
      × (id ≡ p.client_id)
      × (get_client_by_id p.client_id s ≡ some c)
      × ((c.disabled == pos 1) ≡ false)
      × (c.org_id ≡ p.org_id))
    ⊎ ((cfg.allow_call_no_token ≡ true)
        × (id ≢ pos 0)
        × (id ≡ get_client_id_by_device_id (as_non_empty_string (field payload "deviceId") 200) s))

abbrev pub AllOf : ℤ → List CallEvent → Type 0
AllOf id [] = Unit {0}
AllOf id (e ∷ es) = (e.client_id ≡ id) × AllOf id es

abbrev pub stored : List CallEvent → Store → Store
stored extra s = record s { call_events = s.call_events ++ extra }

append_nil : (es : List CallEvent) → es ++ [] ≡ es
append_nil [] = refl
append_nil (e ∷ es) = rw (append_nil es) refl

append_assoc : (xs ys zs : List CallEvent) → (xs ++ ys) ++ zs ≡ xs ++ (ys ++ zs)
append_assoc [] ys zs = refl
append_assoc (x ∷ xs) ys zs = rw (append_assoc xs ys zs) refl

-- A store with more events, which are all of one client.
abbrev pub Stores : ℤ → Store → Store → Type 0
Stores id s t = (extra : List CallEvent) × (t ≡ stored extra s) × AllOf id extra

AllOf-append : (id : ℤ) (xs ys : List CallEvent) → AllOf id xs → AllOf id ys → AllOf id (xs ++ ys)
AllOf-append id [] ys h k = k
AllOf-append id (x ∷ xs) ys h k = (h.0, AllOf-append id xs ys h.1 k)

nothing-Stores : (id : ℤ) (s : Store) → Stores id s s
nothing-Stores id s =
    ([], sym (ap (λ l. record s { call_events = l }) (append_nil s.call_events)), tt)

then-Stores : (id : ℤ) (s t u : Store) → Stores id s t → Stores id t u → Stores id s u
then-Stores id s t u (xs, e, h) (ys, d, k) = (
  xs ++ ys,
  d ∙ ap (stored ys) e ∙ ap (λ l. record s { call_events = l }) (append_assoc s.call_events xs ys),
  AllOf-append id xs ys h k,
)

if-Stores :
    (id : ℤ) (s : Store) (b : Bool) (x y : Store)
    → Stores id s x
    → Stores id s y
    → Stores id s (if b then x else y)
if-Stores id s true x y h k = h
if-Stores id s false x y h k = k

answer-Stores :
    (id : ℤ) (s : Store) (b : Bool) (x y : Response × Store)
    → Stores id s x.1
    → Stores id s y.1
    → Stores id s (if b then x else y).1
answer-Stores id s true x y h k = h
answer-Stores id s false x y h k = k

insert_call_event-Stores :
    (id : ℤ) (typ platform ts : String) (dur : Option ℤ) (now : ℕ) (s : Store)
    → Stores id s (insert_call_event id typ platform ts dur now s)
unfolding insert_call_event
insert_call_event-Stores id typ platform ts dur now s =
    if-Stores id s s.up _ s (_, refl, (refl, tt)) (nothing-Stores id s)

insert_events-Stores :
    (id : ℤ) (now : ℕ) (es : List Value) (n : ℕ) (s : Store)
    → Stores id s (insert_events id now es n s).1
unfolding insert_events
insert_events-Stores id now [] n s = nothing-Stores id s
insert_events-Stores id now (e ∷ es) n s =
    let ev = event_fields e in
    let after : Store =
      insert_call_event id (as_non_empty_string (field ev "type") 32)
        (as_non_empty_string (field ev "platform") 120)
        (as_non_empty_string (field ev "timestamp") 80) (duration_of (field ev "duration_ms")) now
        s in
    answer-Stores id s _ _ (insert_events id now es n after) (nothing-Stores id s) (
      then-Stores id s after (insert_events id now es n after).1
        (insert_call_event-Stores id _ _ _ _ now s) (insert_events-Stores id now es n after))

take_events-Stores :
    (id : ℤ) (now : ℕ) (es : List Value) (s : Store) → Stores id s (take_events id now es s).1
unfolding take_events
take_events-Stores id now [] s = nothing-Stores id s
take_events-Stores id now (e ∷ es) s = insert_events-Stores id now (e ∷ es) _ s

token_sender-MaySend :
    (cfg : Config) (p : IngestPayload) (payload : Msg) (s : Store) (o : Option ClientRow) (id : ℤ)
    → get_client_by_id p.client_id s ≡ o
    → token_sender p o ≡ sender id
    → MaySend cfg (accepted p) payload s id
unfolding token_sender
token_sender-MaySend cfg p payload s none id h e = cc
token_sender-MaySend cfg p payload s (some c) id h e = elim (Bool-cases (c.disabled == pos 1)) [
  | inl d ↦ absurd (ground (arith, d, e))
  | inr d ↦
      inl (
        p,
        c,
        refl,
        ground (arith, d, e),
        h,
        d,
        ground (arith, d, e, int_beq_iff c.org_id p.org_id),
      )
]

let_through :
    (b d : Bool) (r q : Response) (x id : ℤ)
    → (if b then turned_away r else (if d then turned_away q else sender x)) ≡ sender id
    → (d ≡ false) × (id ≡ x)
let_through true d r q x id e = absurd (cc e)
let_through false true r q x id e = absurd (cc e)
let_through false false r q x id e = (refl, cc e)

device_sender-MaySend :
    (cfg : Config) (v : TokenVerdict) (payload : Msg) (s : Store) (id : ℤ)
    → cfg.allow_call_no_token ≡ true
    → device_sender payload s ≡ sender id
    → MaySend cfg v payload s id
unfolding device_sender
device_sender-MaySend cfg v payload s id h e =
    let dev = as_non_empty_string (field payload "deviceId") 200 in
    let (here, same) =
      let_through (is_empty dev) (get_client_id_by_device_id dev s == pos 0)
        (fail 401 "UNAUTHORIZED") (fail 403 "FORBIDDEN") (get_client_id_by_device_id dev s) id e in
    inr (
      h,
      ground (
        arith,
        here,
        same,
        int_beq_iff
            (get_client_id_by_device_id (as_non_empty_string (field payload "deviceId") 200) s)
            (pos 0),
      ),
      same,
    )

sender_of-MaySend :
    (cfg : Config) (v : TokenVerdict) (payload : Msg) (s : Store) (id : ℤ)
    → sender_of cfg v payload s ≡ sender id
    → MaySend cfg v payload s id
unfolding sender_of
sender_of-MaySend cfg (accepted p) payload s id e = token_sender-MaySend cfg p payload s _ id refl e
sender_of-MaySend cfg (denied x) payload s id e = elim (Bool-cases cfg.allow_call_no_token) [
  | inl h ↦ device_sender-MaySend cfg (denied x) payload s id h (ground (arith, h, e))
  | inr h ↦ absurd (ground (arith, h, e))
]

events_from-Stores :
    (cfg : Config) (v : TokenVerdict) (by : Sender) (now : ℕ) (payload : Msg) (s : Store)
    → sender_of cfg v payload s ≡ by
    → ((events_from by now payload s).1 ≡ s)
      ⊎ ((id : ℤ) × MaySend cfg v payload s id × Stores id s (events_from by now payload s).1)
unfolding events_from
events_from-Stores cfg v (turned_away r) now payload s h = inl refl
events_from-Stores cfg v (sender id) now payload s h =
    inr (id, sender_of-MaySend cfg v payload s id h, take_events-Stores id now _ s)

-- A request with call events leaves the database as it was, or it adds events of one client only,
-- and that client is one that may send them: the enabled client of an accepted token, or, where
-- the settings ask for no token, the client of the device that the request names.
pub post_call_events-Stores :
    (env : Env) (cfg : Config) (header : String) (parsed : Option Msg) (s : Store)
    → ((post_call_events env cfg header parsed s).1 ≡ s)
      ⊎ ((payload : Msg) × (id : ℤ) × (parsed ≡ some payload)
          × MaySend cfg
              (verify_ingest_token env.mac env.unmarshal
                (pos env.now)
                (bytes cfg.ingest_token_secret)
                (bytes (bearer header)))
              payload
              s
              id
          × Stores id s (post_call_events env cfg header parsed s).1)
unfolding post_call_events
post_call_events-Stores env cfg header none s = inl refl
post_call_events-Stores env cfg header (some payload) s =
    elim (events_from-Stores cfg
      (verify_ingest_token env.mac env.unmarshal (pos env.now) (bytes cfg.ingest_token_secret)
        (bytes (bearer header)))
      _ env.now payload s refl) [
        | inl same ↦ inl same
        | inr (id, may, adds) ↦ inr (payload, id, refl, may, adds)
      ]
