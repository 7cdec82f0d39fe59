-- ===== src/Redis/Scan.antt =====
-- `deletePattern`: the loop over the cursor ends when the scan does, counts what was deleted and
-- leaves no key of the pattern behind.
use nestjs_microservice_plat.Prelude.{
  ℕ, zero, suc, ◌+◌, ◌≤◌, ◌≡◌, refl, ◌≢◌, inl, inr, String, List, [], ◌∷◌, ◌++◌, Bool, true, false,
  some, arith, ◌==◌, ◌∙◌, eq_iff, includes, includes-append, Bool-cases,
}
use native.Mathlib.Nat.{add_assoc}
use nestjs_microservice_plat.Action.{ok}
use nestjs_microservice_plat.Redis.{Client, delete_batch, delete_from, delete_pattern}

module _ {W : Type 0} (client : Client W) where
  -- The keys of a batch are deleted in one command, and an empty batch needs none.
  pub data Deleted : List String → W → ℕ → W → Type 0 where
    nothing : {w : W} → Deleted [] w 0 w
    by_del :
        {k : String} {ks : List String} {n : ℕ} {w w' : W}
        → client.del (k ∷ ks) w ≡ (ok n, w')
        → Deleted (k ∷ ks) w n w'

  -- A run of the scan from a cursor: each round gives a batch, which is deleted, and the cursor of the
  -- next, until that is "0". It takes `rounds` rounds, gives `keys` and deletes `n` of them.
  pub data Scans (pattern' : String)
      : (rounds : ℕ) → String → W → List String → ℕ → W → Type 0 where
    last :
        {cursor next : String} {batch : List String} {n : ℕ} {w w1 w2 : W}
        → client.scan cursor pattern' w ≡ (ok (next, batch), w1)
        → Deleted batch w1 n w2
        → next ≡ "0"
        → Scans pattern' (suc zero) cursor w batch n w2
    more :
        {rounds : ℕ} {cursor next : String} {batch keys : List String} {n m : ℕ} {w w1 w2 w3 : W}
        → client.scan cursor pattern' w ≡ (ok (next, batch), w1)
        → Deleted batch w1 n w2
        → next ≢ "0"
        → Scans pattern' rounds next w2 keys m w3
        → Scans pattern' (suc rounds) cursor w (batch ++ keys) (n + m) w3

  -- What Redis documents, where nobody else writes: DEL leaves none of its keys and adds none, SCAN
  -- adds none, and a full iteration gives every key that matches and is there from its start to its
  -- end.
  pub record ScanLaws (pattern' : String) (matches : String → Bool) (has : String → W → Bool)
      : Type 0 where
    pub del_removes :
        (keys : List String) (n : ℕ) (w w' : W)
        → client.del keys w ≡ (ok n, w')
        → (k : String) → has k w' ≡ true
        → (has k w ≡ true) × (includes keys k ≡ false)
    pub scan_keeps :
        (cursor next : String) (batch : List String) (w w' : W)
        → client.scan cursor pattern' w ≡ (ok (next, batch), w')
        → (k : String) → has k w' ≡ true
        → has k w ≡ true
    pub complete :
        (rounds n : ℕ) (keys : List String) (w w' : W)
        → Scans pattern' rounds "0" w keys n w'
        → (k : String) → matches k ≡ true
        → has k w ≡ true
        → has k w' ≡ true
        → includes keys k ≡ true

module _ {W : Type 0} (client : Client W) (pattern' : String) where
  delete_batch-Deleted :
      {batch : List String} {n : ℕ} {w w' : W}
      → Deleted client batch w n w'
      → delete_batch client batch w ≡ (ok n, w')
  delete_batch-Deleted nothing = refl
  delete_batch-Deleted (by_del done) = done

  -- One more round than the fuel has rounds for, by how the scan goes on.
  delete_from-Scans :
      {cursor : String} {w w' : W} {n : ℕ} {keys : List String} (rounds fuel deleted : ℕ)
      → Scans client pattern' rounds cursor w keys n w'
      → rounds ≤ fuel
      → delete_from client fuel pattern' cursor deleted w ≡ (ok (some (deleted + n)), w')
  unfolding delete_from
  delete_from-Scans rounds zero deleted (last found gone end) h = absurd (omega arith)
  delete_from-Scans rounds zero deleted (more found gone go_on r) h = absurd (omega arith)
  delete_from-Scans rounds (suc fuel) deleted (last found gone end) h =
      rw (found, delete_from) (rw (delete_batch-Deleted gone, delete_from) (rw end refl))
  delete_from-Scans {cursor = cursor} {w = w} {w' = w'} rounds (suc fuel) deleted
        (more {rounds = before} {next = next} {n = n} {m = m} {w2 = w2} found gone go_on r) h =
      let other : (next == "0") ≡ false = ground (arith, eq_iff next "0") in
      let rest =
        delete_from-Scans {cursor = next} {w = w2} {w' = w'} before fuel (deleted + n) r
          (omega arith) in
      let total : deleted + n + m ≡ deleted + (n + m) = add_assoc deleted n m in
      rw (found, delete_from)
        (rw (delete_batch-Deleted gone, delete_from) (rw other (rw total at rest)))

module _ {W : Type 0} (client : Client W) (pattern' : String) (matches : String → Bool)
    (has : String → W → Bool) (laws : ScanLaws client pattern' matches has) (k : String) where
  -- A key that is there after a batch was deleted was there before and not in the batch.
  Deleted-left :
      {batch : List String} {n : ℕ} {w w' : W}
      → Deleted client batch w n w'
      → has k w' ≡ true
      → (has k w ≡ true) × (includes batch k ≡ false)
  Deleted-left nothing there = (there, refl)
  Deleted-left {n = n} {w = w} {w' = w'} (by_del {k = x} {ks = xs} done) there =
      laws.del_removes (x ∷ xs) n w w' done k there

  -- The same of a whole run.
  Scans-left :
      {rounds n : ℕ} {cursor : String} {keys : List String} {w w' : W}
      → Scans client pattern' rounds cursor w keys n w'
      → has k w' ≡ true
      → (has k w ≡ true) × (includes keys k ≡ false)
  Scans-left {cursor = cursor} {w = w} (last {next = next} {batch = batch} {w1 = w1} found gone end)
        there =
      let (before, out) = Deleted-left gone there in
      (laws.scan_keeps cursor next batch w w1 found k before, out)
  Scans-left {cursor = cursor} {w = w}
        (more {next = next} {batch = batch} {keys = keys} {w1 = w1} found gone go_on r) there =
      let (after, rest) = Scans-left r there in
      let (before, out) = Deleted-left gone after in
      (
        laws.scan_keeps cursor next batch w w1 found k before,
        includes-append batch keys k ∙ rw (out, rest) refl,
      )

  -- Where DEL leaves none of its keys and adds none, SCAN adds none and a full iteration gives
  -- every matching key that is there throughout: if the scan comes to its end in a number of
  -- rounds, deletePattern with fuel for them ends too, answers with the sum of what the deletions
  -- of the batches counted, and leaves no key that matches the pattern.
  pub delete_pattern-clears :
      {w w' : W} {n : ℕ} {keys : List String} (rounds fuel : ℕ)
      → Scans client pattern' rounds "0" w keys n w'
      → rounds ≤ fuel
      → matches k ≡ true
      → (delete_pattern client fuel pattern' w ≡ (ok (some n), w')) × (has k w' ≡ false)
  unfolding delete_pattern
  delete_pattern-clears {w = w} {w' = w'} {n = n} {keys = keys} rounds fuel r h fits =
      let e : 0 + n ≡ n = omega arith in
      (
        rw e at (delete_from-Scans client pattern' rounds fuel 0 r h),
        elim (Bool-cases (has k w')) [
          | inr gone ↦ gone
          | inl there ↦
              let (before, out) = Scans-left r there in
              let given = laws.complete rounds n keys w w' r k fits before there in
              absurd (ground arith)
        ],
      )
