-- ===== src/Hub/Dispatch/Keeping.antt =====
-- The types of message that may change the database without a session, and tables of handlers
-- whose other entries keep it.
use go_signing_server_anywhe.Prelude.{
  String, ◌≡◌, sym, ap, ◌⊎◌, inl, inr, Bool, true, false, Option, none, some, List, [], ◌∷◌, ◌++◌,
  arith, if◌then◌else◌, Bool-cases, ◌==◌, nat_eq, int_eq, string_eq, string_beq_iff, has,
}
use go_signing_server_anywhe.Hub.Dispatch.{Server, Handler, handler_for, entries_for}

-- The messages that sign somebody in or out, that a client sends about itself, and those of older
-- clients and agents.
unfoldable pub open_types : List String
open_types =
    "client-auth" ∷ "admin-login" ∷ "admin-logout" ∷ "ice-path-report" ∷ "heartbeat" ∷ "register"
    ∷ "get-clients" ∷ "connect-to-client" ∷ "disconnect" ∷ []

-- A handler that goes on, with the database as it was.
abbrev pub KeepsStore : Server → Option Server → Type 0
KeepsStore v o = (v' : Server) × (o ≡ some v') × (v'.world.store ≡ v.world.store)

-- Each entry is of an open type or keeps the database.
abbrev pub AllKeep : Server → List (String × Handler) → Type 0
AllKeep v [] = Unit {0}
AllKeep v ((t, f) ∷ table) = ((has t open_types ≡ true) ⊎ KeepsStore v (f v)) × AllKeep v table

pub AllKeep-entries :
    (v : Server) (ts : List String) (f : Handler) (table : List (String × Handler))
    → KeepsStore v (f v)
    → AllKeep v table
    → AllKeep v (entries_for ts f ++ table)
unfolding entries_for
AllKeep-entries v [] f table k h = h
AllKeep-entries v (t ∷ ts) f table k h = (inr k, AllKeep-entries v ts f table k h)

same_handler : (g f : Handler) → some g ≡ some f → g ≡ f
same_handler g f e = ap (λ (o : Option Handler). elim o [ none ↦ g | some k ↦ k ]) e

keeps_entry :
    (v : Server) (typ t : String) (g f : Handler)
    → has typ open_types ≡ false
    → (has t open_types ≡ true) ⊎ KeepsStore v (g v)
    → typ ≡ t
    → some g ≡ some f
    → KeepsStore v (f v)
keeps_entry v typ t g f c (inl o) same e = absurd (ground (arith, o, c, same))
keeps_entry v typ t g f c (inr k) same e = rw (sym (same_handler g f e)) k

found_here :
    (b : Bool) (g f : Handler) (later : Option Handler)
    → b ≡ true
    → (if b then some g else later) ≡ some f
    → some g ≡ some f
found_here true g f later d e = e
found_here false g f later d e = absurd (cc d)

found_later :
    (b : Bool) (g f : Handler) (later : Option Handler)
    → b ≡ false
    → (if b then some g else later) ≡ some f
    → later ≡ some f
found_later true g f later d e = absurd (cc d)
found_later false g f later d e = e

pub AllKeep-found :
    (v : Server) (typ : String) (table : List (String × Handler)) (f : Handler)
    → has typ open_types ≡ false
    → AllKeep v table
    → handler_for typ table ≡ some f
    → KeepsStore v (f v)
unfolding handler_for
AllKeep-found v typ [] f c h e = absurd (cc e)
AllKeep-found v typ ((t, g) ∷ table) f c h e = elim (Bool-cases (typ == t)) [
  | inl d ↦
      keeps_entry v typ t g f c h.0 ((string_beq_iff typ t).0 d) (found_here (typ == t) g f _ d e)
  | inr d ↦ AllKeep-found v typ table f c h.1 (found_later (typ == t) g f _ d e)
]
