-- ===== src/Database/Fetch.antt =====
-- What the readers of rows return.
use linux.Base.{
  ℕ, ◌≡◌, refl, Bool, true, false, ◌&&◌, List, [], ◌∷◌, ◌++◌, Bytes, All, eqb, eqb→eq,
  if◌then◌else◌, codes,
}
use linux.Database.Mysql.{Client}
use linux.Database.{fits, fetched, column, password_matches, check_login_from_database}

abbrev pub login_sql : Bytes
login_sql = codes "SELECT password FROM accounts WHERE username = ?"

-- Every row that is fetched fits its buffers, and the rows from the first that does not on are left out.
pub fetched_stops :
    (widths : List ℕ) (before after : List (List Bytes)) (row : List Bytes)
    → All (λ r. fits widths r ≡ true) before
    → fits widths row ≡ false
    → fetched widths (before ++ row ∷ after) ≡ before
unfolding fetched
fetched_stops widths [] after row h wide = rw wide refl
fetched_stops widths (r ∷ before) after row (h, hs) wide =
    rw (h, fetched_stops widths before after row hs wide) refl

module _ {ℓ} {D : Type ℓ} (client : Client D) where
  abbrev verdict : Bool × D → Bool
  verdict (b, d) = b

  guards :
      (connected prepared ok matches : Bool) (e d : D)
      → verdict
          (if connected then if prepared then (ok && matches, e) else (false, d) else (false, d))
        ≡ true
      → (connected ≡ true) × (prepared ≡ true) × (ok ≡ true) × (matches ≡ true)
  guards true true true true e d h = (refl, refl, refl, refl)
  guards true true true false e d h = cc
  guards true true false matches e d h = cc
  guards true false ok matches e d h = cc
  guards false prepared ok matches e d h = cc

  first_row :
      (pass : Bytes) (rows : List (List Bytes))
      → password_matches client pass rows ≡ true
      → (row : List Bytes) × (rest : List (List Bytes)) × (rows ≡ row ∷ rest)
        × (fits (64 ∷ []) row ≡ true)
        × (eqb (column 0 row) pass ≡ true)
  unfolding password_matches
  first_row pass [] h = cc
  first_row pass (row ∷ rows) h =
      let (f, same) = both (fits (64 ∷ []) row) (eqb (column 0 row) pass) h in
      (row, rows, refl, f, same)
    where
      both : (a b : Bool) → a && b ≡ true → (a ≡ true) × (b ≡ true)
      both true b h = (refl, h)
      both false b h = cc

  -- A login succeeds only with a connection, a statement that is prepared and executed, and a first row that
  -- holds the password that was given, in a column that fits 64 bytes.
  pub check_login_sound :
      (user pass : Bytes) (d : D)
      → (check_login_from_database client user pass d).0 ≡ true
      → (client.connected ≡ true)
        × (client.prepares login_sql ≡ true)
        × ((client.executes login_sql (user ∷ []) d).0.ok ≡ true)
        × ((row : List Bytes) × (rest : List (List Bytes)) × ((client.executes login_sql
                (user ∷ [])
                d).0.rows
              ≡ row ∷ rest)
            × (fits (64 ∷ []) row ≡ true)
            × (column 0 row ≡ pass))
  unfolding check_login_from_database
  check_login_sound user pass d h =
      let r = client.executes login_sql (user ∷ []) d in
      let (c, p, ok, m) =
        guards client.connected (client.prepares login_sql) r.0.ok
          (password_matches client pass r.0.rows) r.1 d h in
      let (row, rest, e, f, same) = first_row pass r.0.rows m in
      (c, p, ok, (row, rest, e, f, eqb→eq (column 0 row) pass same))
