-- ===== src/Kv/Tests.antt =====
-- Runs of the store, with an encoding that keeps each number as it is.
use portfolio_itmo.Common.{ℕ, ◌≡◌, refl, List, [], ◌∷◌, ◌++◌, Option, none, some}
use portfolio_itmo.Common.Dict.{insert, remove}
use portfolio_itmo.Common.Equality.{nat_eq, list_eq, list_beq}
use portfolio_itmo.Kv.{
  Data, Json, Log, Command, op_set, op_delete, apply, run_command, apply_all, restore, persist,
  snapshot, new_kv_store,
}
use portfolio_itmo.Kv.Replay.{Agree, Encodes, apply_all-restore}

-- A set is written as three bytes and a removal as two, both with the key in the second.
abbrev decode : List ℕ → Option Command
decode (kind ∷ k ∷ v ∷ []) = some (record { op = op_set; key = k ∷ []; value = v ∷ [] })
decode (kind ∷ k ∷ []) = some (record { op = op_delete; key = k ∷ []; value = [] })
decode _ = none

-- A map with one entry, of one byte each.
abbrev encode_data : Data → List ℕ
encode_data ((k ∷ [], v ∷ []) ∷ []) = k ∷ v ∷ []
encode_data _ = 0 ∷ []

abbrev decode_data : List ℕ → Option Data
decode_data (k ∷ v ∷ []) = some ((k ∷ [], v ∷ []) ∷ [])
decode_data _ = none

abbrev plain : Json
plain = record {
  marshal = λ c. 1 ∷ (c.key ++ c.value);
  unmarshal = decode;
  marshal_data = encode_data;
  unmarshal_data = decode_data;
}

abbrev entry : ℕ → List ℕ → Log
entry index bytes = record { index = index; data_bytes = bytes }

abbrev early : List Log
early = entry 1 (1 ∷ 7 ∷ 70 ∷ []) ∷ entry 2 (1 ∷ 8 ∷ 80 ∷ []) ∷ entry 3 (2 ∷ 7 ∷ []) ∷ []

abbrev late : List Log
late = entry 4 (1 ∷ 9 ∷ 90 ∷ []) ∷ []

after_early : (apply_all plain early new_kv_store).data_by_key ≡ (8 ∷ [], 80 ∷ []) ∷ []
unfolding apply_all apply run_command insert remove list_beq
after_early = refl

early-Encodes : Encodes plain (apply_all plain early new_kv_store).data_by_key
unfolding apply_all apply run_command insert remove list_beq
early-Encodes = record {
  first = 8;
  rest = 80 ∷ [];
  decoded = (8 ∷ [], 80 ∷ []) ∷ [];
  bytes_written = refl;
  decodes = refl;
  same_answers = λ key. refl;
}

apply_all-restore_example :
    ((restore plain
        (some (persist plain (snapshot (apply_all plain early new_kv_store))))
        new_kv_store).0
      ≡ none)
    × Agree
        (apply_all plain late
          (restore plain
            (some (persist plain (snapshot (apply_all plain early new_kv_store))))
            new_kv_store).1)
        (apply_all plain (early ++ late) new_kv_store)
apply_all-restore_example = apply_all-restore plain early late new_kv_store early-Encodes
