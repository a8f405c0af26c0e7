-- ===== src/Config/Tests.antt =====
-- Writes of a tenant to an empty table; white space is the blank.
use food_delivery_api.Common.{ℕ, ◌==◌, ◌≡◌, refl, Bool, true, false, [], ◌∷◌, some, ok, err}
use food_delivery_api.Common.Int.{pos}
use food_delivery_api.Common.Number.{int}
use food_delivery_api.Config.{
  ConfigDb, UpsertConfigValueCommand, upsert_config_value, get_config_value, unique_violation,
  find_entry, entry_of, create, assert_valid_key, assert_valid_value, upsert, publish_value_changed,
}
use food_delivery_api.Config.Upsert.{upsert_config_value-get, upsert_config_value-padded}

abbrev space : ℕ → Bool
space c = c == 32

abbrev empty : ConfigDb
empty = record { entries = []; published = [] }

abbrev command : UpsertConfigValueCommand
command = record {
  key = 118 ∷ [];
  value = int (pos 10);
  global = false;
  tenant_id = 1;
  is_platform_admin = false;
  new_id = 4;
  publication_succeeds = true;
}

abbrev padded : UpsertConfigValueCommand
padded = record command { key = 32 ∷ 118 ∷ [] }

-- The table after the write of `command`, and after that of `padded`.
abbrev written_db : ConfigDb
written_db = record {
  entries =
      record { id = 4; tenant_id = some 1; key = 118 ∷ []; value = int (pos 10); updated_at = 9 }
      ∷ [];
  published = (some 1, 118 ∷ []) ∷ [];
}

written : upsert_config_value space command 9 empty ≡ (ok (int (pos 10)), written_db)
unfolding upsert_config_value find_entry entry_of create assert_valid_key assert_valid_value upsert
    publish_value_changed
written = refl

written_padded : upsert_config_value space padded 9 empty ≡ (ok (int (pos 10)), written_db)
unfolding upsert_config_value find_entry entry_of create assert_valid_key assert_valid_value upsert
    publish_value_changed
written_padded = refl

upsert_config_value-get_example :
    (int (pos 10) ≡ int (pos 10))
    × (get_config_value 1 (118 ∷ []) written_db ≡ (ok (int (pos 10)), written_db))
upsert_config_value-get_example =
    upsert_config_value-get space command 9 empty written_db (int (pos 10)) refl refl refl written

valid : assert_valid_value (int (pos 20)) ≡ ok tt
unfolding assert_valid_value
valid = refl

upsert_config_value-padded_example :
    upsert_config_value space (record padded { new_id = 5; value = int (pos 20) }) 12 written_db
    ≡ (err unique_violation, written_db)
upsert_config_value-padded_example =
    upsert_config_value-padded space padded 9 12 5 (int (pos 20)) empty written_db (int (pos 10))
      valid refl refl refl refl written_padded
