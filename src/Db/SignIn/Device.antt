-- ===== src/Db/SignIn/Device.antt =====
-- What a sign-in leaves in the rows of clients.
use Prim.Native.Char.{Char}
use go_signing_server_anywhe.Prelude.{
  ℕ, String, ◌≡◌, refl, sym, ◌≢◌, inl, inr, Bool, true, false, ◌||◌, Option, none, some, List, [],
  ◌∷◌, ◌++◌, arith, ltb, if◌then◌else◌, Bool-cases, Option-cases, ℤ, pos, int_beq, ◌==◌, nat_eq,
  int_eq, string_eq, string_beq_iff, beq_refl,
}
use go_signing_server_anywhe.Text.{trim_space, is_empty, byte_len}
use go_signing_server_anywhe.Db.Tables.{Store, ClientRow, find_where, update_where}
use go_signing_server_anywhe.Db.Clients.{normalize_display_name}
use go_signing_server_anywhe.Db.Organizations.{Org, ensure_organization, get_organization_by_name}
use go_signing_server_anywhe.Db.SignIn.{
  SignedClient, UpsertResult, signed_in, refused, of_device, apply_org, claimed_name, signed_row,
  update_client, insert_client, upsert_row, default_org, upsert_device, upsert_client_auth,
}

-- The row of a device.
abbrev row_of : String → Store → Option ClientRow
row_of dev s = find_where (of_device dev) s.clients

module _ {A : Type 0} (p q : A → Bool) (f : A → A) where
  find_updated :
      ((x : A) → p (f x) ≡ p x)
      → (xs : List A) (x : A) → find_where p xs ≡ some x
      → find_where p (update_where p f xs) ≡ some (f x)
  unfolding find_where update_where
  find_updated keeps [] x h = absurd (ground (arith, h))
  find_updated keeps (y ∷ ys) x h = elim (Bool-cases (p y)) [
    | inl e ↦ ground (arith, e, h, keeps y)
    | inr e ↦ ground (arith, e, h, find_updated keeps ys x)
  ]

  find_others :
      ((x : A) → p x ≡ true → q x ≡ false)
      → ((x : A) → q (f x) ≡ q x)
      → (xs : List A) → find_where q (update_where p f xs) ≡ find_where q xs
  unfolding find_where update_where
  find_others apart keeps [] = refl
  find_others apart keeps (y ∷ ys) = elim (Bool-cases (p y)) [
    | inl e ↦ rw (e, keeps y, apart y e) (find_others apart keeps ys)
    | inr e ↦ elim (Bool-cases (q y)) [
      | inl d ↦ rw (e, d) refl
      | inr d ↦ rw (e, d) (find_others apart keeps ys)
    ]
  ]

module _ {A : Type 0} (p : A → Bool) where
  find_appended :
      (xs : List A) (x : A)
      → find_where p xs ≡ none
      → p x ≡ true
      → find_where p (xs ++ x ∷ []) ≡ some x
  unfolding find_where
  find_appended [] x h e = rw e refl
  find_appended (y ∷ ys) x h e = elim (Bool-cases (p y)) [
    | inl d ↦ absurd (ground (arith, d, h))
    | inr d ↦ rw d (find_appended ys x (ground (arith, d, h)) e)
  ]

  find_skipped : (xs : List A) (x : A) → p x ≡ false → find_where p (xs ++ x ∷ []) ≡ find_where p xs
  unfolding find_where
  find_skipped [] x e = rw e refl
  find_skipped (y ∷ ys) x e = elim (Bool-cases (p y)) [
    | inl d ↦ rw d refl
    | inr d ↦ rw d (find_skipped ys x e)
  ]

-- The row that a client was signed in with.
abbrev pub IsSignedRow : SignedClient → String → ClientRow → Type 0
IsSignedRow c sid r =
    (r.id ≡ c.id)
    × (r.org_id ≡ c.org_id)
    × (r.full_name ≡ c.full_name)
    × (r.socket_id ≡ some sid)
    × (r.status ≡ "sharing")
    × ((r.disabled == pos 1) ≡ false)

-- The device's row before and after, by the answer.
abbrev pub Outcome : UpsertResult → String → Option ClientRow → Option ClientRow → Type 0
Outcome (refused code message) sid before after = after ≡ before
Outcome (signed_in c extra) sid before after =
    (r : ClientRow) × (after ≡ some r) × IsSignedRow c sid r

-- The other devices' rows stay.
abbrev pub OthersStay : String → List ClientRow → List ClientRow → Type 0
OthersStay dev before after =
    (other : String)
    → other ≢ dev
    → find_where (of_device other) after ≡ find_where (of_device other) before

-- What a sign-in answers and does to the rows.
abbrev pub KeepsRows : String → String → Store → UpsertResult × Store → Type 0
KeepsRows dev sid s p =
    OthersStay dev s.clients p.1.clients
    × Outcome p.0 sid (find_where (of_device dev) s.clients)
        (find_where (of_device dev) p.1.clients)

apart :
    (dev other : String) (x : ClientRow)
    → other ≢ dev
    → of_device dev x ≡ true
    → of_device other x ≡ false
unfolding of_device
apart dev other x h e =
    ground (arith, h, e, string_beq_iff x.device_id dev, string_beq_iff x.device_id other)

signed_row-of_device :
    (org_id : ℤ) (claimed : Option String) (name sid : String) (now : ℕ) (dev : String)
    (x : ClientRow)
    → of_device dev (signed_row org_id claimed name sid now x) ≡ of_device dev x
unfolding of_device signed_row
signed_row-of_device org_id claimed name sid now dev x = refl

update_client-row :
    (c : ClientRow) (dev name requested sid : String) (now : ℕ) (s : Store)
    → find_where (of_device dev) s.clients ≡ some c
    → (c.disabled == pos 1) ≡ false
    → KeepsRows dev sid s (update_client c dev name requested sid now s)
unfolding update_client signed_row
update_client-row c dev name requested sid now s h d = (
  λ other ne.
      find_others (of_device dev) (of_device other)
        (signed_row (apply_org c) (claimed_name c requested) name sid now)
        (λ x e. apart dev other x ne e)
        (signed_row-of_device (apply_org c) (claimed_name c requested) name sid now other)
        s.clients,
  (
    signed_row (apply_org c) (claimed_name c requested) name sid now c,
    find_updated (of_device dev) (of_device dev)
        (signed_row (apply_org c) (claimed_name c requested) name sid now)
        (signed_row-of_device (apply_org c) (claimed_name c requested) name sid now dev) s.clients c
        h,
    (refl, refl, refl, refl, refl, d),
  ),
)

insert_client-row :
    (org_id : ℤ) (dev name requested sid : String) (now : ℕ) (s : Store)
    → find_where (of_device dev) s.clients ≡ none
    → KeepsRows dev sid s (insert_client org_id dev name requested sid now s)
unfolding insert_client of_device int_beq
insert_client-row org_id dev name requested sid now s h = (
  λ other ne.
      find_skipped (of_device other) s.clients _ (ground (arith, ne, string_beq_iff dev other)),
  (
    _,
    find_appended (of_device dev) s.clients _ h (beq_refl dev),
    (refl, refl, refl, refl, refl, refl),
  ),
)

upsert_row-row :
    (o : Option ClientRow) (org_id : ℤ) (dev name requested sid : String) (now : ℕ) (s : Store)
    → find_where (of_device dev) s.clients ≡ o
    → KeepsRows dev sid s (upsert_row o org_id dev name requested sid now s)
unfolding upsert_row
upsert_row-row none org_id dev name requested sid now s h =
    insert_client-row org_id dev name requested sid now s h
upsert_row-row (some c) org_id dev name requested sid now s h =
    elim (Bool-cases (c.disabled == pos 1)) [
      | inl e ↦ rw e (λ other ne. refl, refl)
      | inr e ↦ rw e (update_client-row c dev name requested sid now s h e)
    ]

upsert_device-row :
    (org : Option Org) (dev name requested sid : String) (now : ℕ) (s : Store)
    → KeepsRows dev sid s (upsert_device (org, s) dev name requested sid now)
unfolding upsert_device
upsert_device-row none dev name requested sid now s = (λ other ne. refl, refl)
upsert_device-row (some o) dev name requested sid now s =
    upsert_row-row (find_where (of_device dev) s.clients) o.0 dev name requested sid now s refl

-- EnsureOrganization leaves the clients as they are.
ensure-clients :
    (lower_rune : Char → Char) (name : String) (s : Store)
    → (ensure_organization lower_rune name s).1.clients ≡ s.clients
unfolding ensure_organization
ensure-clients lower_rune name s = ground arith

default_org-clients :
    (org : Option Org) (made : Option Org × Store) (s : Store)
    → made.1.clients ≡ s.clients
    → (default_org org made s).1.clients ≡ s.clients
unfolding default_org
default_org-clients none made s h = h
default_org-clients (some o) made s h = refl

-- The rows of another store with the same clients.
same_clients :
    (dev sid : String) (s t : Store) (p : UpsertResult × Store)
    → t.clients ≡ s.clients
    → KeepsRows dev sid t p
    → KeepsRows dev sid s p
same_clients dev sid s t p h k = rw (sym h) k

either :
    (dev sid : String) (s : Store) (b : Bool) (x y : UpsertResult × Store)
    → KeepsRows dev sid s x
    → KeepsRows dev sid s y
    → KeepsRows dev sid s (if b then x else y)
either dev sid s true x y h k = h
either dev sid s false x y h k = k

upsert_in-row :
    (made : Option Org × Store) (dev name requested sid : String) (now : ℕ) (s : Store)
    → made.1.clients ≡ s.clients
    → KeepsRows dev sid s (upsert_device made dev name requested sid now)
upsert_in-row (org, t) dev name requested sid now s h =
    same_clients dev sid s t (upsert_device (org, t) dev name requested sid now) h
      (upsert_device-row org dev name requested sid now t)

-- A client that signs in gets the row of its device, which is then on this socket, shared, and was
-- not disabled; a refusal leaves the row as it was. The rows of other devices stay in any case.
pub upsert_client_auth-rows :
    (lower_rune : Char → Char) (device_id org_name full_name sid : String) (now : ℕ) (s : Store)
    → KeepsRows
        (trim_space device_id)
        sid
        s
        (upsert_client_auth lower_rune device_id org_name full_name sid now s)
unfolding upsert_client_auth
upsert_client_auth-rows lower_rune device_id org_name full_name sid now s =
    elim (Bool-cases
      (is_empty (normalize_display_name full_name) || ltb (byte_len (trim_space device_id)) 8)) [
        | inl e ↦ rw e (λ other ne. refl, refl)
        | inr e ↦ elim (Option-cases (get_organization_by_name lower_rune org_name s)) [
          | inl n ↦ rw (e, n) (λ other ne. refl, refl)
          | inr (org, n) ↦
              rw (e, n)
                (either (trim_space device_id) sid s s.up
                  (upsert_device (default_org org (ensure_organization lower_rune "default" s) s)
                    (trim_space device_id) (normalize_display_name full_name) (trim_space org_name)
                    sid now)
                  (refused "" "", s)
                  (upsert_in-row (default_org org (ensure_organization lower_rune "default" s) s)
                    (trim_space device_id) (normalize_display_name full_name) (trim_space org_name)
                    sid now s
                    (default_org-clients org (ensure_organization lower_rune "default" s) s
                      (ensure-clients lower_rune "default" s)))
                  (λ other ne. refl, refl))
        ]
      ]
