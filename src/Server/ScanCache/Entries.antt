-- ===== src/Server/ScanCache/Entries.antt =====
-- What internal/server/scan_cache.go keeps and serves.
use wfm.Prelude.{
  ℕ, ◌+◌, ◌≤◌, Bool, true, false, List, [], ◌∷◌, Option, none, some, ◌≡◌, ◌≢◌, refl, sym, arith,
  Text, text_eq, ◌==◌, leb, if◌then◌else◌, All, keep, Option-cases, inl, inr, subst,
}
use wfm.Server.Messages.{AccessPoint, InterfaceScan}
use wfm.Server.ScanCache.{
  ScanCache, new_scan_cache, within_ttl, fresh, find_scan, replace_or_append, put_scan, served, get,
  blob, Storage, loaded, load, put,
}

-- At most one entry for each interface.
abbrev pub HasDistinctIds : List InterfaceScan → Type 0
HasDistinctIds [] = Unit
HasDistinctIds (e ∷ entries) =
    All (λ x. x.interface_id ≢ e.interface_id) entries × HasDistinctIds entries

find_scan-replace_or_append :
    (e : InterfaceScan) (entries : List InterfaceScan) (j : Text)
    → find_scan (replace_or_append e entries) j
      ≡ (if e.interface_id == j then some e else find_scan entries j)
unfolding find_scan replace_or_append
find_scan-replace_or_append e [] j = refl
find_scan-replace_or_append e (x ∷ entries) j =
    ground (arith, find_scan-replace_or_append e entries j)

replace_or_append-All :
    (P : InterfaceScan → Type 0) (e : InterfaceScan) (entries : List InterfaceScan)
    → P e
    → All P entries
    → All P (replace_or_append e entries)
unfolding replace_or_append
replace_or_append-All P e [] p h = (p, tt)
replace_or_append-All P e (x ∷ entries) p (q, h) =
    ground (arith, replace_or_append-All P e entries p h)

replace_or_append-HasDistinctIds :
    (e : InterfaceScan) (entries : List InterfaceScan)
    → HasDistinctIds entries
    → HasDistinctIds (replace_or_append e entries)
unfolding replace_or_append
replace_or_append-HasDistinctIds e [] d = (tt, tt)
replace_or_append-HasDistinctIds e (x ∷ entries) (other, d) =
    elim (text_eq.dec x.interface_id e.interface_id) [
      | yes same ↦
          let rest : All (λ y. y.interface_id ≢ e.interface_id) entries =
            subst (λ id. All (λ y. y.interface_id ≢ id) entries) same other in
          ground arith
      | no differ ↦
          let rest =
            replace_or_append-All (λ y. y.interface_id ≢ x.interface_id) e entries
              (λ p. differ (sym p)) other in
          ground (arith, replace_or_append-HasDistinctIds e entries d)
    ]

pub put_scan-HasDistinctIds :
    (entries : List InterfaceScan) (if_id : Text) (at : ℕ) (aps : List AccessPoint)
    → HasDistinctIds entries
    → HasDistinctIds (put_scan entries if_id at aps)
unfolding put_scan
put_scan-HasDistinctIds entries if_id at aps d = replace_or_append-HasDistinctIds _ entries d

keep-All :
    (P : InterfaceScan → Type 0) (q : InterfaceScan → Bool) (entries : List InterfaceScan)
    → All P entries
    → All P (keep q entries)
keep-All P q [] h = tt
keep-All P q (x ∷ entries) (p, h) = ground (arith, keep-All P q entries h)

keep-HasDistinctIds :
    (q : InterfaceScan → Bool) (entries : List InterfaceScan)
    → HasDistinctIds entries
    → HasDistinctIds (keep q entries)
keep-HasDistinctIds q [] d = tt
keep-HasDistinctIds q (x ∷ entries) (other, d) =
    let rest = keep-All (λ y. y.interface_id ≢ x.interface_id) q entries other in
    ground (arith, keep-HasDistinctIds q entries d)

find_scan_of_other :
    (entries : List InterfaceScan) (if_id : Text)
    → All (λ y. y.interface_id ≢ if_id) entries
    → find_scan entries if_id ≡ none
unfolding find_scan
find_scan_of_other [] if_id h = refl
find_scan_of_other (x ∷ entries) if_id (p, h) = ground (arith, find_scan_of_other entries if_id h)

stale_later :
    (ttl now later : ℕ) (at : Option ℕ)
    → now ≤ later
    → within_ttl ttl now at ≡ false
    → within_ttl ttl later at ≡ false
stale_later ttl now later none h e = refl
stale_later ttl now later (some at) h e = ground arith

served-keep :
    (c : ScanCache) (entries : List InterfaceScan) (if_id : Text) (now later : ℕ)
    → HasDistinctIds entries
    → now ≤ later
    → served c later (find_scan (keep (λ e. fresh c e now) entries) if_id)
      ≡ served c later (find_scan entries if_id)
unfolding find_scan fresh
served-keep c [] if_id now later d h = refl
served-keep c (x ∷ entries) if_id now later (other, d) h = elim (text_eq.dec x.interface_id if_id) [
  | yes same ↦
      let rest : All (λ y. y.interface_id ≢ if_id) entries =
        subst (λ id. All (λ y. y.interface_id ≢ id) entries) same other in
      ground (
        arith,
        stale_later c.ttl now later x.scanned_at h,
        find_scan_of_other (keep (λ e. fresh c e now) entries) if_id
            (keep-All (λ y. y.interface_id ≢ if_id) (λ e. fresh c e now) entries rest),
      )
  | no differ ↦ ground (arith, served-keep c entries if_id now later d h)
]

module _ {W : Type 0} (st : Storage W) where
  put-cache :
      (c : ScanCache) (if_id : Text) (at : ℕ) (aps : List AccessPoint) (w : W)
      → (put st c if_id at aps w).1 ≡ record c { entries = put_scan c.entries if_id at aps }
  unfolding put
  put-cache c if_id at aps w = ground arith

  -- The cache after `Put`, whether or not the write to disk succeeded: the interface has the new
  -- scan until it expires, and every other interface is served as before.
  pub get-put :
      (c : ScanCache) (if_id j : Text) (at now : ℕ) (aps : List AccessPoint) (w : W)
      → get (put st c if_id at aps w).1 j now
        ≡ (if if_id == j then if leb now (at + c.ttl) then some aps else none else get c j now)
  unfolding get put_scan fresh
  get-put c if_id j at now aps w = rw (put-cache c if_id at aps w) (
      rw
        (find_scan-replace_or_append
          (record { interface_id = if_id; scanned_at = some at; access_points = aps }) c.entries j)
        (ground arith))

  -- `Put` keeps at most one entry for each interface.
  pub put-HasDistinctIds :
      (c : ScanCache) (if_id : Text) (at : ℕ) (aps : List AccessPoint) (w : W)
      → HasDistinctIds c.entries
      → HasDistinctIds (put st c if_id at aps w).1.entries
  put-HasDistinctIds c if_id at aps w d =
      rw (put-cache c if_id at aps w) (put_scan-HasDistinctIds c.entries if_id at aps d)

  -- A file that decodes to distinct entries is loaded as distinct entries, and from the time of
  -- the load on it is served as if nothing had been dropped.
  pub load-served :
      (c : ScanCache) (now later : ℕ) (bytes if_id : Text) (entries : List InterfaceScan) (w w' : W)
      → st.read_file c.path w ≡ (blob bytes, w')
      → st.unmarshal bytes ≡ some entries
      → HasDistinctIds entries
      → now ≤ later
      → (c' : ScanCache) × (load st c now w ≡ (true, c', w'))
        × HasDistinctIds c'.entries
        × (get c' if_id later ≡ get (record c { entries = entries }) if_id later)
  unfolding load get fresh
  load-served c now later bytes if_id entries w w' r u d h = (
    record c { entries = keep (λ e. fresh c e now) entries },
    rw (r, loaded) (rw u),
    keep-HasDistinctIds (λ e. fresh c e now) entries d,
    served-keep c entries if_id now later d h,
  )

  -- What the encoding and the file give back after a write that succeeded.
  pub record IsStorage : Type 0 where
    pub unmarshal-marshal :
        (entries : List InterfaceScan) (bytes : Text)
        → st.marshal entries ≡ some bytes
        → st.unmarshal bytes ≡ some entries
    pub read-write :
        (path bytes : Text) (w w' : W)
        → st.write_file_atomic path bytes w ≡ (true, w')
        → st.read_file path w' ≡ (blob bytes, w')

  put-true :
      (c c' : ScanCache) (if_id : Text) (at : ℕ) (aps : List AccessPoint) (w w' : W)
      → put st c if_id at aps w ≡ (true, c', w')
      → (bytes : Text) × (st.marshal (put_scan c.entries if_id at aps) ≡ some bytes)
        × (st.write_file_atomic c.path bytes w ≡ (true, w'))
        × (c' ≡ record c { entries = put_scan c.entries if_id at aps })
  unfolding put
  put-true c c' if_id at aps w w' e =
      elim (Option-cases (st.marshal (put_scan c.entries if_id at aps))) [
        | inl m ↦ ground arith
        | inr (bytes, m) ↦ (bytes, m, ground arith, ground arith)
      ]

  -- A `Put` that reports no error survives a restart: a new server that loads the file serves, from
  -- the time of its load on, what the old one would serve.
  pub load-put :
      IsStorage
      → (c c' : ScanCache) (if_id j : Text) (at now later : ℕ) (aps : List AccessPoint) (w w' : W)
      → HasDistinctIds c.entries
      → put st c if_id at aps w ≡ (true, c', w')
      → now ≤ later
      → (c2 : ScanCache) × (load st (new_scan_cache c.path c.ttl) now w' ≡ (true, c2, w'))
        × (get c2 j later ≡ get c' j later)
  unfolding new_scan_cache
  load-put s c c' if_id j at now later aps w w' d e h =
      let (bytes, m, stored, same) = put-true c c' if_id at aps w w' e in
      let (c2, loads, distinct, agrees) =
        load-served (new_scan_cache c.path c.ttl) now later bytes j
          (put_scan c.entries if_id at aps) w' w' (s.read-write c.path bytes w w' stored)
          (s.unmarshal-marshal (put_scan c.entries if_id at aps) bytes m)
          (put_scan-HasDistinctIds c.entries if_id at aps d) h in
      (c2, loads, rw same agrees)
