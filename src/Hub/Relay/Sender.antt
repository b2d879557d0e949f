-- ===== src/Hub/Relay/Sender.antt =====
-- What a relayed message says of its sender, and how many screens a client has (internal/hub/handlers.go).
use go_signing_server_anywhe.Prelude.{
  ℕ, ◌-◌, ◌≤◌, String, ◌≡◌, refl, ap, ◌∙◌, inl, inr, Bool, true, false, not, ◌&&◌, Option, none,
  some, List, [], ◌∷◌, arith, if◌then◌else◌, Option-cases, ℤ, pos, ◌+ℤ◌, ◌==◌, nat_eq, int_eq,
  string_eq, string_beq, length,
}
use go_signing_server_anywhe.Prelude.Map.{put, del, get-put, get-del}
use go_signing_server_anywhe.Text.{is_empty}
use go_signing_server_anywhe.Hub.Types.{Conn, ScreenSource}
use go_signing_server_anywhe.Hub.Types.Json.{
  Msg, Value, null, bool, float, str, int, arr, obj, field,
}
use go_signing_server_anywhe.Hub.Relay.{relayed, put_from_name, screen_sources, screen_source}

-- The name that a connection has signed in with.
unfoldable pub signed_name : Conn → Option String
signed_name c = elim c.client [
  | some who ↦ some who.full_name
  | none ↦ elim c.admin [ none ↦ none | some who ↦ some who.full_name ]
]

field-put :
    (k j : String) (v : Value) (m : Msg) → field (put k v m) j ≡ (if k == j then v else field m j)
unfolding field
field-put k j v m = ground (arith, get-put k j v m)

field-del : (k j : String) (m : Msg) → field (del k m) j ≡ (if k == j then null else field m j)
unfolding field
field-del k j m = ground (arith, get-del k j m)

-- A message under the name of its sender.
named : Option String → Msg → Msg
named none m = m
named (some name) m = put "fromName" (str name) m

put_from_name-named : (c : Conn) (m : Msg) → put_from_name c m ≡ named (signed_name c) m
unfolding put_from_name signed_name named
put_from_name-named c m = ground arith

named-other :
    (n : Option String) (m : Msg) (j : String)
    → string_beq "fromName" j ≡ false
    → field (named n m) j ≡ field m j
unfolding named
named-other none m j h = refl
named-other (some name) m j h = rw (field-put "fromName" j (str name) m, h) refl

-- A name that was signed in with, or else what was claimed.
unfoldable pub or_claimed : Option String → Value → Value
or_claimed none v = v
or_claimed (some name) v = str name

named-name :
    (n : Option String) (m : Msg) → field (named n m) "fromName" ≡ or_claimed n (field m "fromName")
unfolding named string_beq or_claimed
named-name none m = refl
named-name (some name) m = rw (field-put "fromName" "fromName" (str name) m) refl

-- The marks that the server puts on a message before the sender's name.
marked : ℕ → String → ℤ → Msg → Msg
marked now sid seq msg = put "fromSocketId" (str sid) (
    put "timestamp" (int (pos now))
      (put "seq" (int seq) (del "targetName" (del "targetSocketId" msg))))

marked-fields :
    (now : ℕ) (sid : String) (seq : ℤ) (msg : Msg)
    → (field (marked now sid seq msg) "fromSocketId" ≡ str sid)
      × (field (marked now sid seq msg) "seq" ≡ int seq)
      × (field (marked now sid seq msg) "targetSocketId" ≡ null)
      × (field (marked now sid seq msg) "fromName" ≡ field msg "fromName")
unfolding marked string_beq
marked-fields now sid seq msg =
    let m0 = del "targetName" (del "targetSocketId" msg) in
    let m1 = put "seq" (int seq) m0 in
    let m2 = put "timestamp" (int (pos now)) m1 in
    (
      field-put "fromSocketId" "fromSocketId" (str sid) m2,
      field-put "fromSocketId" "seq" (str sid) m2
          ∙ field-put "timestamp" "seq" (int (pos now)) m1
          ∙ field-put "seq" "seq" (int seq) m0,
      field-put "fromSocketId" "targetSocketId" (str sid) m2
          ∙ field-put "timestamp" "targetSocketId" (int (pos now)) m1
          ∙ field-put "seq" "targetSocketId" (int seq) m0
          ∙ field-del "targetName" "targetSocketId" (del "targetSocketId" msg)
          ∙ field-del "targetSocketId" "targetSocketId" msg,
      field-put "fromSocketId" "fromName" (str sid) m2
          ∙ field-put "timestamp" "fromName" (int (pos now)) m1
          ∙ field-put "seq" "fromName" (int seq) m0
          ∙ field-del "targetName" "fromName" (del "targetSocketId" msg)
          ∙ field-del "targetSocketId" "fromName" msg,
    )

no_name :
    (string_beq "fromName" "fromSocketId" ≡ false)
    × (string_beq "fromName" "seq" ≡ false)
    × (string_beq "fromName" "targetSocketId" ≡ false)
unfolding string_beq
no_name = (refl, refl, refl)

-- Whatever a message claims, the one that is passed on names the sender's own socket and the
-- sender's next number, carries no target socket any more, and names the sender as it has signed
-- in; only a sender that has not signed in keeps the name that it claims.
pub relayed-marks :
    (now : ℕ) (sid : String) (c : Conn) (msg : Msg)
    → let m = relayed now sid c msg in
      (field m "fromSocketId" ≡ str sid)
      × (field m "seq" ≡ int (c.signal_seq +ℤ pos 1))
      × (field m "targetSocketId" ≡ null)
      × (field m "fromName" ≡ or_claimed (signed_name c) (field msg "fromName"))
unfolding relayed marked
relayed-marks now sid c msg =
    let k = marked now sid (c.signal_seq +ℤ pos 1) msg in
    let (p, q, r, s) = marked-fields now sid (c.signal_seq +ℤ pos 1) msg in
    let (x, y, z) = no_name in
    rw (put_from_name-named c k) (
      named-other (signed_name c) k "fromSocketId" x ∙ p,
      named-other (signed_name c) k "seq" y ∙ q,
      named-other (signed_name c) k "targetSocketId" z ∙ r,
      named-name (signed_name c) k ∙ ap (or_claimed (signed_name c)) s,
    )

room_left : (room : ℕ) (vs : List Value) → 1 ≤ room → length (screen_sources room vs) ≤ room
unfolding screen_sources
room_left room [] h = omega arith
room_left room (v ∷ vs) h =
    ground (arith, room_left room vs h, λ (l : 1 ≤ room - 1). room_left (room - 1) vs l)

-- Every source has an id and a name.
unfoldable pub all_named : List ScreenSource → Bool
all_named [] = true
all_named (s ∷ ss) = not (is_empty s.id) && not (is_empty s.name) && all_named ss

screen_source-named :
    (v : Value) (s : ScreenSource)
    → screen_source v ≡ some s
    → (is_empty s.id ≡ false) × (is_empty s.name ≡ false)
unfolding screen_source
screen_source-named null s e = absurd (ground arith)
screen_source-named (bool b) s e = absurd (ground arith)
screen_source-named (float b) s e = absurd (ground arith)
screen_source-named (int b) s e = absurd (ground arith)
screen_source-named (str b) s e = absurd (ground arith)
screen_source-named (arr b) s e = absurd (ground arith)
screen_source-named (obj fs) s e = (ground arith, ground arith)

all_named-sources : (room : ℕ) (vs : List Value) → all_named (screen_sources room vs) ≡ true
unfolding screen_sources all_named
all_named-sources room [] = refl
all_named-sources room (v ∷ vs) = elim (Option-cases (screen_source v)) [
  | inl e ↦ ground (arith, e, all_named-sources room vs)
  | inr (s, e) ↦ ground (arith, e, screen_source-named v s e, all_named-sources (room - 1) vs)
]

-- A client has at most eight screens, whatever it sends, and each has an id and a name.
screen_sources-bound :
    (vs : List Value)
    → (length (screen_sources 8 vs) ≤ 8) × (all_named (screen_sources 8 vs) ≡ true)
screen_sources-bound vs = (room_left 8 vs (omega arith), all_named-sources 8 vs)
