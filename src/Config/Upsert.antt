-- ===== src/Config/Upsert.antt =====
-- What a write of a value leaves for the reads after it.
use food_delivery_api.Common.{
  ℕ, ==_refl, ◌≡◌, refl, ap, ◌∙◌, subst, ◌&&◌, not, Option, none, some, Bool, true, false, List, [],
  ◌∷◌, ◌++◌, any, find, ok, err, arith, inl, inr, Result-cases, any-append_self,
}
use food_delivery_api.Common.Chars.{Text, same_text, same_text_refl, trim}
use food_delivery_api.Common.Number.{Number}
use food_delivery_api.Common.Table.{update_where, find-append_none, find_passes, any_of_find}
use food_delivery_api.Config.{
  same_tenant, unique_violation, ConfigEntry, ConfigDb, is_entry, has_id, create, with_value,
  assert_valid_key, assert_valid_value, find_entry, upsert, UpsertConfigValueCommand, target_of,
  entry_of, publish_value_changed, upsert_config_value, get_config_value, resolve_config_value,
}

same_tenant_refl : (t : Option ℕ) → same_tenant t t ≡ true
same_tenant_refl none = refl
same_tenant_refl (some t) = ==_refl t

module _ {ℓ} {A : Type ℓ} (wanted : A → Bool) where
  find-update_const :
      (selects : A → Bool) (new e : A) (rows : List A)
      → find wanted rows ≡ some e
      → selects e ≡ true
      → wanted new ≡ true
      → find wanted (update_where selects (λ r. new) rows) ≡ some new
  find-update_const selects new e [] h s w = ground arith
  find-update_const selects new e (r ∷ rows) h s w =
      ground (arith, find-update_const selects new e rows)

  any_of_find-none : (rows : List A) → find wanted rows ≡ none → any wanted rows ≡ false
  any_of_find-none [] h = refl
  any_of_find-none (r ∷ rows) h = ground (arith, any_of_find-none rows)

-- The entry that a write without an existing row saves.
created-is :
    (space : ℕ → Bool) (c : UpsertConfigValueCommand) (now : ℕ) (entry : ConfigEntry)
    → entry_of space c now none ≡ ok entry
    → entry ≡ record {
      id = c.new_id;
      tenant_id = target_of c;
      key = trim space c.key;
      value = c.value;
      updated_at = now;
    }
unfolding entry_of create assert_valid_key assert_valid_value
created-is space c now entry h = ground arith

changed-is :
    (space : ℕ → Bool) (c : UpsertConfigValueCommand) (now : ℕ) (e entry : ConfigEntry)
    → entry_of space c now (some e) ≡ ok entry
    → entry ≡ record e { value = c.value; updated_at = now }
unfolding entry_of with_value assert_valid_value
changed-is space c now e entry h = ground arith

-- What a write that returned has done: it had permission, made an entry, and saved it.
pub record IsWritten (space : ℕ → Bool) (c : UpsertConfigValueCommand) (now : ℕ) (db db' : ConfigDb)
    (v : Number) : Type 0 where
  pub allowed : (c.global && not c.is_platform_admin) ≡ false
  pub entry : ConfigEntry
  pub made : entry_of space c now (find (is_entry (target_of c) c.key) db.entries) ≡ ok entry
  pub saved : (upsert entry db).0 ≡ ok entry
  pub rows : db'.entries ≡ (upsert entry db).1.entries
  pub value : v ≡ entry.value

written :
    (space : ℕ → Bool) (c : UpsertConfigValueCommand) (now : ℕ) (db db' : ConfigDb) (v : Number)
    → upsert_config_value space c now db ≡ (ok v, db')
    → IsWritten space c now db db' v
unfolding upsert_config_value find_entry publish_value_changed upsert
written space c now db db' v h =
    elim (Result-cases (entry_of space c now (find (is_entry (target_of c) c.key) db.entries))) [
      | inl (entry, e) ↦ record {
        allowed = ground arith;
        entry = entry;
        made = e;
        saved = ground arith;
        rows = ground arith;
        value = ground arith;
      }
      | inr (bad, e) ↦ ground arith
    ]

-- A saved entry is the one that is found for its tenant and key, where a new one has a new id.
saved-found :
    (entry : ConfigEntry) (db : ConfigDb) (found : Option ConfigEntry) (tenant_id : Option ℕ)
    (key : Text)
    → find (is_entry tenant_id key) db.entries ≡ found
    → is_entry tenant_id key entry ≡ true
    → ((e : ConfigEntry) → found ≡ some e → e.id ≡ entry.id)
    → (upsert entry db).0 ≡ ok entry
    → (found ≡ none → any (has_id entry.id) db.entries ≡ false)
    → find (is_entry tenant_id key) (upsert entry db).1.entries ≡ some entry
unfolding upsert
saved-found entry db (some e) tenant_id key h mine same saved new = ground (
  arith,
  same e refl,
  ==_refl entry.id,
  any_of_find (is_entry tenant_id key) (has_id entry.id) db.entries e h,
  find-update_const (is_entry tenant_id key) (has_id entry.id) entry e db.entries h,
)
saved-found entry db none tenant_id key h mine same saved new =
    ground (arith, new refl, find-append_none (is_entry tenant_id key) db.entries (entry ∷ []) h)

module _ (space : ℕ → Bool) (c : UpsertConfigValueCommand) (now : ℕ) (db db' : ConfigDb)
    (v : Number) (new : any (has_id c.new_id) db.entries ≡ false) where
  found_after :
      (w : IsWritten space c now db db' v) (found : Option ConfigEntry)
      → find (is_entry (target_of c) c.key) db.entries ≡ found
      → trim space c.key ≡ c.key
      → find (is_entry (target_of c) c.key) db'.entries ≡ some w.entry
  found_after w none h trimmed =
      let made =
        created-is space c now w.entry
          (subst (λ x. entry_of space c now x ≡ ok w.entry) h w.made) in
      ap (find (is_entry (target_of c) c.key)) w.rows
      ∙ saved-found w.entry db none (target_of c) c.key h
          (rw (made, trimmed)
            (ground (arith, same_tenant_refl (target_of c), same_text_refl c.key)))
          (λ e bad. ground arith) w.saved (λ absent. rw made new)
  found_after w (some e) h trimmed =
      let made =
        changed-is space c now e w.entry
          (subst (λ x. entry_of space c now x ≡ ok w.entry) h w.made) in
      ap (find (is_entry (target_of c) c.key)) w.rows
      ∙ saved-found w.entry db (some e) (target_of c) c.key h
          (rw made (find_passes (is_entry (target_of c) c.key) db.entries e h))
          (λ e' same. ground (arith, made)) w.saved (λ absent. ground arith)

-- The entry of a write has the value that was written.
made-value :
    (space : ℕ → Bool) (c : UpsertConfigValueCommand) (now : ℕ) (found : Option ConfigEntry)
    (entry : ConfigEntry)
    → entry_of space c now found ≡ ok entry
    → entry.value ≡ c.value
made-value space c now none entry h = ap (λ e. e.value) (created-is space c now entry h)
made-value space c now (some e) entry h = ap (λ x. x.value) (changed-is space c now e entry h)

-- Once a tenant's write of a value under a key without outer white space has returned, with a new
-- id where it made an entry, it has returned the value that was written, and the tenant's reads of
-- the key return that value.
pub upsert_config_value-get :
    (space : ℕ → Bool) (c : UpsertConfigValueCommand) (now : ℕ) (db db' : ConfigDb) (v : Number)
    → c.global ≡ false
    → trim space c.key ≡ c.key
    → any (has_id c.new_id) db.entries ≡ false
    → upsert_config_value space c now db ≡ (ok v, db')
    → (v ≡ c.value) × (get_config_value c.tenant_id c.key db' ≡ (ok c.value, db'))
unfolding get_config_value find_entry resolve_config_value
upsert_config_value-get space c now db db' v own trimmed new h =
    let w = written space c now db db' v h in
    let there =
      subst (λ t. find (is_entry t c.key) db'.entries ≡ some w.entry) {y = some c.tenant_id}
        (ground (arith, own)) (found_after space c now db db' v new w _ refl trimmed) in
    let same = made-value space c now _ w.entry w.made in
    (w.value ∙ same, rw there (ap (λ x. (ok x, db')) same))

created_again :
    (space : ℕ → Bool) (c : UpsertConfigValueCommand) (now later other_id : ℕ) (value : Number)
    (entry : ConfigEntry)
    → assert_valid_value value ≡ ok tt
    → entry_of space c now none ≡ ok entry
    → entry_of space (record c { new_id = other_id; value = value }) later none
      ≡ ok (record {
        id = other_id;
        tenant_id = target_of c;
        key = trim space c.key;
        value = value;
        updated_at = later;
      })
unfolding entry_of create assert_valid_key assert_valid_value
created_again space c now later other_id value entry valid h = ground arith

appended :
    (entry : ConfigEntry) (db : ConfigDb)
    → any (has_id entry.id) db.entries ≡ false
    → (upsert entry db).0 ≡ ok entry
    → (upsert entry db).1.entries ≡ db.entries ++ entry ∷ []
unfolding upsert
appended entry db new saved = ground arith

refused :
    (entry : ConfigEntry) (db : ConfigDb)
    → any (has_id entry.id) db.entries ≡ false
    → any (is_entry entry.tenant_id entry.key) db.entries ≡ true
    → upsert entry db ≡ (err unique_violation, db)
unfolding upsert
refused entry db new taken = ground arith

-- Once a call has made an entry under a key with outer white space, the next call of the same caller
-- for the same tenant and key, with any valid value and another new id, throws the violation of the
-- unique index and changes nothing: the lookup does not trim the key, the entry does.
pub upsert_config_value-padded :
    (space : ℕ → Bool) (c : UpsertConfigValueCommand) (now later other_id : ℕ) (value : Number)
    (db db' : ConfigDb) (v : Number)
    → assert_valid_value value ≡ ok tt
    → same_text (trim space c.key) c.key ≡ false
    → find (is_entry (target_of c) c.key) db.entries ≡ none
    → any (has_id c.new_id) db.entries ≡ false
    → any (has_id other_id) db'.entries ≡ false
    → upsert_config_value space c now db ≡ (ok v, db')
    → upsert_config_value space (record c { new_id = other_id; value = value }) later db'
      ≡ (err unique_violation, db')
unfolding upsert_config_value find_entry
upsert_config_value-padded space c now later other_id value db db' v valid padded absent new other
      h =
    let w = written space c now db db' v h in
    let first = subst (λ x. entry_of space c now x ≡ ok w.entry) absent w.made in
    let made = created-is space c now w.entry first in
    let rows = w.rows ∙ appended w.entry db (rw made new) w.saved in
    let missing : find (is_entry (target_of c) c.key) db'.entries ≡ none =
      ap (find (is_entry (target_of c) c.key)) rows
      ∙ find-append_none (is_entry (target_of c) c.key) db.entries (w.entry ∷ []) absent
      ∙ rw made (ground (arith, padded)) in
    let taken : any (is_entry (target_of c) (trim space c.key)) db'.entries ≡ true =
      ap (any (is_entry (target_of c) (trim space c.key))) rows
      ∙ any-append_self (is_entry (target_of c) (trim space c.key)) db.entries w.entry (
          rw made
            (ground (arith, same_tenant_refl (target_of c), same_text_refl (trim space c.key)))) in
    let again = created_again space c now later other_id value w.entry valid first in
    ground (arith, w.allowed, missing, again, refused _ db' other taken)
