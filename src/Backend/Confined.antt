-- ===== src/Backend/Confined.antt =====
-- The steps of the backend's operations stay within the handles of the user they act for.
pub mod Operations
use mathlib.Core.List.{Memᴰ, append-nil}
use fluss_gateway.Types.Errors.{GatewayError, fluss_error}
use fluss_gateway.Base.{
  ◌≡◌, refl, ap, subst, map, ◌++◌, Bool, true, false, Result, ok, err, ℕ, zero, suc, ◌+◌, Text,
  Option, none, some, List, [], ◌∷◌, ◌++◌, Result-cases, Bool-cases, inl, inr, if◌then◌else◌,
}
use fluss_gateway.Types.Datum.{Formats}
use fluss_gateway.Types.Requests.{LookupParams}
use fluss_gateway.Fluss.{
  get_table, Call, Externals, Column, Row, TablePath, Partition, subscribe, project,
}
use fluss_gateway.Gateway.{World, Run, Fault, fails, pure, call, ◌>>=◌, ◌>>◌}
use fluss_gateway.Gateway.Writes.{Write, written}
use fluss_gateway.Pool.Confined.{handle_of}
use fluss_gateway.Backend.{admin, table}
use fluss_gateway.Backend.Admin.{path_of, infos_or_none, means_unpartitioned}
use fluss_gateway.Backend.Read.{key_row, unwrap, projected, subscribe_all}
use fluss_gateway.Backend.Write.{write_all, require}
use fluss_gateway.Backend.Program.{called}
use fluss_gateway.Backend.Tables.{IsTable, is_table}
use fluss_gateway.Backend.Program.Stays.Gives.{Gives, take-Gives, weaken-Gives, opens-Gives}
use fluss_gateway.Backend.Program.Safe.{newest-From, listed, scanned}
use fluss_gateway.Backend.Program.Stays.{
  Runs, Takes, Runs-pure, Runs-after, call-settled, asks-Runs, call-Runs, Runs-bind, runs_rules,
}
use fluss_gateway.Backend.Program.Stays.Takes.{
  take-Runs, take-Takes, conn-Takes, opens-Takes, scan-Takes,
}
use fluss_gateway.Server.Auth.{BasicAuthCredentials}

-- What `list_partitions` makes of the answer.
abbrev infos : Result (List Partition) Text → Result (List Partition) Fault
infos (ok parts) = ok parts
infos (err e) = if means_unpartitioned e then ok [] else err (fails (fluss_error e))

infos_or_none-infos :
    (x : Externals) (creds : Option BasicAuthCredentials) (c : Call) (w : World)
    → infos_or_none x creds c w ≡ (infos (x.client.partitions w.trace c), called c w)
unfolding infos_or_none
infos_or_none-infos x creds c w = elim (Result-cases (x.client.partitions w.trace c)) [
  | inl (parts, e) ↦ rw (e, infos_or_none) (call-settled x.client.partitions c w e)
  | inr (m, e) ↦ elim (Bool-cases (means_unpartitioned m)) [
    | inl t ↦
        rw (e, infos_or_none, t) (ap (λ o. (ok [], o.1)) (call-settled x.client.partitions c w e))
    | inr t ↦ rw (e, infos_or_none, t) (call-settled x.client.partitions c w e)
  ]
]

-- The call is made on one of the handles.
pub On : List ℕ → Option ℕ → Type 0
On hs none = ⊥
On hs (some h) = Memᴰ h hs

On-handle : (hs : List ℕ) (o : Option ℕ) → On hs o → (h : ℕ) × (o ≡ some h) × Memᴰ h hs
unfolding On
On-handle hs none m = elim m [ ]
On-handle hs (some h) m = (h, refl, m)

pub newest : (h : ℕ) (hs : List ℕ) → On (h ∷ hs) (some h)
unfolding On
newest h hs = Memᴰ.head refl

pub earlier : (g h : ℕ) (hs : List ℕ) → On hs (some h) → On (g ∷ hs) (some h)
unfolding On
earlier g h hs m = Memᴰ.tail m

module _ (x : Externals) (creds : Option BasicAuthCredentials) (Let : Type 0) where
  asks :
      {A : Type 0} (m : Run A) (c : Call) (f : List Call → Result A Fault) (hs : List ℕ)
      → ((w : World) → m w ≡ (f w.trace, called c w))
      → On hs (handle_of c)
      → written (c ∷ []) ≡ []
      → Runs x creds Let hs [] m
  asks m c f hs e on quiet =
      let (h, at_h, member) = On-handle hs (handle_of c) on in
      subst (λ ws. Runs x creds Let hs ws m) quiet (asks-Runs x creds Let hs m c f h e at_h member)

  -- A call that asks for a change, and one that does not.
  pub changes :
      {A : Type 0} (answer : List Call → Call → Result A Text) (c : Call) (hs : List ℕ)
      → On hs (handle_of c)
      → Runs x creds Let hs (written (c ∷ [])) (call answer c)
  changes answer c hs on =
      let (h, at_h, member) = On-handle hs (handle_of c) on in
      call-Runs x creds Let hs answer c h at_h member

  pub calls :
      {A : Type 0} (answer : List Call → Call → Result A Text) (c : Call) (hs : List ℕ)
      → On hs (handle_of c)
      → written (c ∷ []) ≡ []
      → Runs x creds Let hs [] (call answer c)
  calls answer c hs on quiet =
      subst (λ ws. Runs x creds Let hs ws (call answer c)) quiet (changes answer c hs on)

  pub opens :
      (c : Call) (hs : List ℕ)
      → On hs (handle_of c)
      → written (c ∷ []) ≡ []
      → Takes x creds Let hs (call x.client.opens c)
  opens c hs on quiet =
      let (h, at_h, member) = On-handle hs (handle_of c) on in
      opens-Takes x creds Let hs c h at_h (listed h member) quiet

  pub admin-Takes : (hs : List ℕ) → Let → Takes x creds Let hs (admin x creds)
  unfolding admin handle_of written
  admin-Takes hs l =
      take-Takes x creds Let hs _ _ (conn-Takes x creds Let hs l)
        (λ c. opens _ (c ∷ hs) (newest c hs) refl)

  pub table-Takes :
      (path : TablePath) (hs : List ℕ) → Let → Takes x creds Let hs (table x path creds)
  unfolding table handle_of written
  table-Takes path hs l =
      take-Takes x creds Let hs _ _ (conn-Takes x creds Let hs l)
        (λ c. opens _ (c ∷ hs) (newest c hs) refl)

  pub table-Gives :
      (db name : Text) (hs : List ℕ)
      → Let
      → Gives x creds Let (IsTable x db name) hs (table x (path_of db name) creds)
  unfolding table handle_of written
  table-Gives db name hs l =
      take-Gives x creds Let (IsTable x db name) hs _ _ (conn-Takes x creds Let hs l) λ c.
        weaken-Gives x creds Let _ _ (c ∷ hs) _ (λ t (history, e). is_table c history e)
          (opens-Gives x creds Let (c ∷ hs) (get_table c (path_of db name)) c refl
            (newest-From x c hs) refl)

  module _ (hs : List ℕ) where
    pub require-Runs : (b : Bool) (e : GatewayError) → Runs x creds Let hs [] (require b e)
    require-Runs true e = search runs_rules
    require-Runs false e = search runs_rules

    pub write_all-Runs :
        (write : Row → Call) (made : Row → Write) (rows : List Row)
        → ((row : Row) → On hs (handle_of (write row)))
        → ((row : Row) → written (write row ∷ []) ≡ made row ∷ [])
        → Runs x creds Let hs (map made rows) (write_all x write rows)
    unfolding write_all
    write_all-Runs write made [] on asked = search runs_rules
    write_all-Runs write made (row ∷ rows) on asked =
        Runs-bind x creds Let hs (made row ∷ []) (map made rows) _ _
          (subst (λ ws. Runs x creds Let hs ws (call x.client.runs (write row))) (asked row)
            (changes x.client.runs (write row) hs (on row)))
          (λ _. write_all-Runs write made rows on asked)

    unwrap-Runs : (o : Option ℕ) → Runs x creds Let hs [] (unwrap o)
    unwrap-Runs none = search runs_rules
    unwrap-Runs (some i) = search runs_rules

    pub key_row-Runs :
        (f : Formats) (columns : List Column) (params : LookupParams) (pk : List Text) (row : Row)
        → Runs x creds Let hs [] (key_row f columns params pk row)
    unfolding key_row
    key_row-Runs f columns params [] row = search runs_rules
    key_row-Runs f columns params (name ∷ pk) row =
        search (runs_rules, unwrap-Runs, key_row-Runs f columns params pk) depth 12

    pub projected-Takes :
        (db name : Text) (p : Option (List ℕ)) (t : ℕ)
        → On hs (some t)
        → Takes x creds Let hs (projected x creds db name p (x.client.new_scan t))
    unfolding projected On handle_of written
    projected-Takes db name none t on = scan-Takes x creds Let hs t on
    projected-Takes db name (some p) t on =
        opens-Takes x creds Let hs (project (x.client.new_scan t) p) (x.client.new_scan t) refl
          (scanned t (listed t on)) refl

    pub subscribe_all-Runs :
        (db name : Text) (scanner i n : ℕ)
        → On hs (some scanner)
        → Runs x creds Let hs [] (subscribe_all x creds db name scanner i n)
    unfolding subscribe_all handle_of written
    subscribe_all-Runs db name scanner i zero on = search runs_rules
    subscribe_all-Runs db name scanner i (suc n) on =
        Runs-after x creds Let hs [] _ _ (calls x.client.runs (subscribe scanner i) hs on refl)
          (λ _. subscribe_all-Runs db name scanner (i + 1) n on)

    pub infos_or_none-Runs :
        (c : Call)
        → On hs (handle_of c)
        → written (c ∷ []) ≡ []
        → Runs x creds Let hs [] (infos_or_none x creds c)
    infos_or_none-Runs c on quiet =
        asks (infos_or_none x creds c) c (λ t. infos (x.client.partitions t c)) hs
          (infos_or_none-infos x creds c) on quiet

    -- The loop over the rows, and the flush and the reply after it.
    pub finish-Runs :
        {A : Type 0} (write : Row → Call) (made : Row → Write) (rows : List Row) (flush : Call)
        (a : A)
        → ((row : Row) → On hs (handle_of (write row)))
        → ((row : Row) → written (write row ∷ []) ≡ made row ∷ [])
        → On hs (handle_of flush)
        → written (flush ∷ []) ≡ []
        → Runs x creds Let hs
            (map made rows)
            (write_all x write rows >> (call x.client.runs flush >> pure a))
    finish-Runs write made rows flush a on asked on_flush quiet =
        subst
          (λ ws.
            Runs x creds Let hs ws (write_all x write rows >> (call x.client.runs flush >> pure a)))
          (append-nil (map made rows))
          (Runs-bind x creds Let hs (map made rows) [] _ _ (write_all-Runs write made rows on asked)
            (λ _.
              Runs-after x creds Let hs [] _ _ (calls x.client.runs flush hs on_flush quiet)
                (λ _. Runs-pure x creds Let hs a)))

pub ruleset step_rules = (
  runs_rules, refl, take-Runs, calls, opens, newest, earlier, admin-Takes, table-Takes,
  require-Runs, key_row-Runs, projected-Takes, subscribe_all-Runs, infos_or_none-Runs,
)
