-- ===== src/Redis/ScanTests.antt =====
-- A scan of two rounds over three keys.
use nestjs_microservice_plat.Prelude.{
  ℕ, ◌≡◌, refl, String, List, [], ◌∷◌, Bool, true, false, none, some, arith, ◌==◌, not, ◌&&◌,
  if◌then◌else◌, length, includes, includes-append, ◌∙◌, ap, sym, subst, Bool-cases, inl, inr,
  eq_iff,
}
use nestjs_microservice_plat.Action.{ok}
use nestjs_microservice_plat.Redis.{Client, delete_pattern}
use nestjs_microservice_plat.Redis.Scan.{Scans, last, more, by_del, ScanLaws, delete_pattern-clears}

-- Which keys are there.
abbrev Keys : Type 0
Keys = String → Bool

-- The scan gives two keys and the cursor "7", and then one key and the cursor "0".
abbrev scanned : String → String × List String
scanned cursor = if cursor == "0" then ("7", "a" ∷ "b" ∷ []) else ("0", "c" ∷ [])

abbrev client : Client Keys
client = record {
  get = λ key w. (ok none, w);
  set_ex = λ key text ttl w. (ok tt, w);
  set = λ key text w. (ok tt, w);
  del = λ keys w. (ok (length keys), λ k. w k && not (includes keys k));
  scan = λ cursor pattern' w. (ok (scanned cursor), w);
  incr_expire = λ key ttl w. (ok none, w);
  ping = λ w. (ok "PONG", w);
  quit = λ w. (ok tt, w);
}

abbrev one_of_three : String → Bool
one_of_three k = includes ("a" ∷ "b" ∷ "c" ∷ []) k

abbrev is_there : String → Keys → Bool
is_there k w = w k

abbrev all_three : Keys
all_three k = one_of_three k

abbrev two_gone : Keys
two_gone k = all_three k && not (includes ("a" ∷ "b" ∷ []) k)

abbrev three_gone : Keys
three_gone k = two_gone k && not (includes ("c" ∷ []) k)

scanned_lem :
    (cursor next : String) (batch : List String) (w w' : Keys)
    → client.scan cursor "*" w ≡ (ok (next, batch), w')
    → scanned cursor ≡ (next, batch)
scanned_lem cursor next batch w w' found = ground arith

-- A run from another cursor than "0" gives the third key.
second-gives :
    {rounds n : ℕ} {cursor : String} {keys : List String} {w w' : Keys}
    → Scans client "*" rounds cursor w keys n w'
    → (cursor == "0") ≡ false
    → includes keys "c" ≡ true
second-gives {cursor = cursor} {w = w} (last {next = next} {batch = batch} {w1 = w1} found gone end)
      other =
    let is : batch ≡ "c" ∷ [] = ground (arith, scanned_lem cursor next batch w w1 found, other) in
    rw is refl
second-gives {cursor = cursor} {w = w}
      (more {next = next} {batch = batch} {w1 = w1} found gone go_on r) other =
    let is : batch ≡ "c" ∷ [] = ground (arith, scanned_lem cursor next batch w w1 found, other) in
    rw is refl

run-gives :
    (rounds n : ℕ) (keys : List String) (w w' : Keys)
    → Scans client "*" rounds "0" w keys n w'
    → (k : String) → one_of_three k ≡ true
    → w k ≡ true
    → w' k ≡ true
    → includes keys k ≡ true
run-gives rounds n keys w w' (last {next = next} {batch = batch} {w1 = w1} found gone end) k fits
      before there =
    let is : next ≡ "7" = ground (arith, scanned_lem "0" next batch w w1 found) in
    let clash : false ≡ true = ap (λ s. s == "0") (sym is ∙ end) in absurd (ground arith)
run-gives rounds n keys w w'
      (more {next = next} {batch = batch} {keys = rest} {w1 = w1} found gone go_on r) k fits before
      there =
    let at : next ≡ "7" = ground (arith, scanned_lem "0" next batch w w1 found) in
    let is : batch ≡ "a" ∷ "b" ∷ [] = ground (arith, scanned_lem "0" next batch w w1 found) in
    let third = second-gives r (rw at refl) in
    includes-append batch rest k
    ∙ rw is (elim (Bool-cases ("c" == k)) [
      | inr other ↦ ground arith
      | inl named ↦
          let same : "c" ≡ k = ground (arith, eq_iff "c" k) in
          let rest_has : includes rest k ≡ true = subst (λ s. includes rest s ≡ true) same third in
          ground arith
    ])

three_laws : ScanLaws client "*" one_of_three is_there
three_laws = record {
  del_removes = λ keys n w w' done k there.
      let gone : (w k && not (includes keys k)) ≡ w' k = ap (λ r. r.1 k) done in
      (ground (arith, gone, there), ground (arith, gone, there));
  scan_keeps = λ cursor next batch w w' done k there.
      let same : w k ≡ w' k = ap (λ r. r.1 k) done in ground (arith, same, there);
  complete = run-gives;
}

three_scanned : Scans client "*" 2 "0" all_three ("a" ∷ "b" ∷ "c" ∷ []) 3 three_gone
three_scanned =
    more {w2 = two_gone} refl (by_del refl) (cc) (last {next = "0"} refl (by_del refl) refl)

delete_pattern-clears_example :
    (delete_pattern client 5 "*" all_three ≡ (ok (some 3), three_gone)) × (three_gone "b" ≡ false)
delete_pattern-clears_example =
    delete_pattern-clears client "*" one_of_three is_there three_laws "b" 2 5 three_scanned
      (omega arith) refl
