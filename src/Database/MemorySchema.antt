-- ===== src/Database/MemorySchema.antt =====
-- The concrete model with the defaults of a schema: it satisfies SchemaLaws.
use nestjs_microservice_plat.Prelude.{◌≡◌, ap, String, none, some, arith, eq_refl}
use nestjs_microservice_plat.Js.{Value, str, Object, spread}
use nestjs_microservice_plat.Action.{ok}
use nestjs_microservice_plat.Database.{Model, ModelLaws, by_id}
use nestjs_microservice_plat.Database.Schema.{Schema, default_at, SchemaLaws}
use nestjs_microservice_plat.Database.Memory.{Store, memory, memory-laws, Storable, insert, found}

-- The document that a creation stores.
abbrev pub filled : Schema → Object → Object
filled schema o = spread (default_at schema) o

abbrev pub memory_for : Schema → Model Store
memory_for schema = record memory { create = λ o. insert (filled schema o) }

pub memory_for-laws : (schema : Schema) → ModelLaws (memory_for schema) Storable
memory_for-laws schema = record {
  find_by_id_lem = memory-laws.find_by_id_lem;
  update_missing = memory-laws.update_missing;
  update_sets = memory-laws.update_sets;
  update_keeps = memory-laws.update_keeps;
  update_stored = memory-laws.update_stored;
  update_others = memory-laws.update_others;
  find_sound = memory-laws.find_sound;
  find_limit = memory-laws.find_limit;
  find_stored = memory-laws.find_stored;
}

insert-ok : (o d : Object) (w w' : Store) → insert o w ≡ (ok d, w') → (d ≡ o) × (w' ≡ some d)
insert-ok o d none w' e = (ground arith, ground arith)
insert-ok o d (some old) w' e = cc

found-inserted :
    (d : Object) (id : String) → d "_id" ≡ some (str id) → found (by_id id) (some d) ≡ some d
found-inserted d id key = rw (key, eq_refl id)

fills :
    (schema : Schema) (o : Object) (k : String) (v : Value)
    → o k ≡ none
    → default_at schema k ≡ some v
    → filled schema o k ≡ some v
fills schema o k v left h = ground arith

keeps :
    (schema : Schema) (o : Object) (k : String) (v : Value)
    → o k ≡ some v
    → filled schema o k ≡ some v
keeps schema o k v given = ground arith

pub memory_for-creation : (schema : Schema) → SchemaLaws (memory_for schema) Storable schema
memory_for-creation schema = record {
  create_fills = λ o d w w' k v e left h.
      let (same, _) = insert-ok (filled schema o) d w w' e in rw same (fills schema o k v left h);
  create_keeps = λ o d w w' k v e given h.
      let (same, _) = insert-ok (filled schema o) d w w' e in rw same (keeps schema o k v given);
  create_stored = λ o d w w' id e key.
      let (_, kept) = insert-ok (filled schema o) d w w' e in
      rw kept (ap ok (found-inserted d id key));
}
