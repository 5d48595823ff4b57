-- ===== src/Billing/Invoicing/Created.antt =====
-- What `_create_invoice` (modules/billing/invoicing.py) adds when it returns: an invoice with its lines.
use ttcs_t926_k8s4_n1_csms.Base.Result as Outcome
use ttcs_t926_k8s4_n1_csms.Base.{
  ℕ, ◌≡◌, refl, sym, ap, subst, ◌∙◌, Bool, true, false, not, ◌||◌, Option, none, some, List, [],
  ◌∷◌, ◌++◌, map, All, leb, ◌==◌, arith,
}
use ttcs_t926_k8s4_n1_csms.Base.Int.{pos, ltb_ℤ, ◌≤ℤ◌, eqb_ℤ}
use ttcs_t926_k8s4_n1_csms.Base.Text.{codes, text_eq}
use ttcs_t926_k8s4_n1_csms.Billing.Segmentation.{Raises, Segment, chia_doan}
use ttcs_t926_k8s4_n1_csms.Billing.Segmentation.Days.{energy_total}
use ttcs_t926_k8s4_n1_csms.Billing.Tables.{
  ChargingSession, Invoice, InvoiceLine, OccupationInterval, TariffVersion, Station,
}
use ttcs_t926_k8s4_n1_csms.Billing.Invoicing.Readings.{meter_values}
use ttcs_t926_k8s4_n1_csms.Billing.Invoicing.Tariffs.{daily_tariffs}
use ttcs_t926_k8s4_n1_csms.Billing.Invoicing.Idle.{Lines, idle_lines}
use ttcs_t926_k8s4_n1_csms.Billing.Invoicing.Drafts.{
  meter_values-same, occupation_if-same, OnlyTariffs, daily_tariffs-OnlyTariffs,
}
use ttcs_t926_k8s4_n1_csms.Billing.Invoicing.{
  max_vnd, is_some, station_and_point, find_station, occupation_if, billing_end_of, from_segments,
  from_idle, energy_line, lines_total, any_overflow, any_broken, used_energy, frames_on,
  insert_invoice, interval_lines, all_idle_lines, rule_of, total_lines, invoice_session,
  create_invoice,
}
use ttcs_t926_k8s4_n1_csms.Wallet.Tables.{Db}
use ttcs_t926_k8s4_n1_csms.Wallet.Debit.{find_invoice}
use ttcs_t926_k8s4_n1_csms.Wallet.Tx.{ok}
use ttcs_t926_k8s4_n1_csms.Wallet.Tx.Invert.{bind-ok, or_raise-ok, raise_if-ok, ok_state, ok_value}
use ttcs_t926_k8s4_n1_csms.Billing.Invoicing.Owned.{
  OfInvoice, All-++, energy_line-OfInvoice, idle_lines-OfInvoice,
}

-- Lines that an action made: all of one invoice, the tables as before.
abbrev Made : ℕ → Db → Db → List InvoiceLine → Type 0
Made i db db' ls = (db ≡ db') × All (OfInvoice i) ls

from_idle-Made :
    (i : ℕ) (r : Lines (List InvoiceLine)) {ls : List InvoiceLine} (db db' : Db)
    → ((l : List InvoiceLine) → r ≡ Outcome.ok l → All (OfInvoice i) l)
    → from_idle r db ≡ ok (ls, db')
    → Made i db db' ls
from_idle-Made i (Outcome.ok l) db db' f h =
    (ok_state h, subst (All (OfInvoice i)) (ok_value h) (f l refl))
from_idle-Made i (Outcome.err e) db db' f h = cc

module _ (now fresh : ℕ) (c : ChargingSession) (station : Station)
    (versions : List (ℕ × TariffVersion)) where
  interval_lines-Made :
      (is : List OccupationInterval) {ls : List InvoiceLine} (db db' : Db)
      → interval_lines now fresh c station versions is db ≡ ok (ls, db')
      → Made fresh db db' ls
  unfolding interval_lines
  interval_lines-Made [] db db' h = (ok_state h, subst (All (OfInvoice fresh)) (ok_value h) tt)
  interval_lines-Made (i ∷ is) db db' h =
      let (ended, _, h1) = or_raise-ok i.ended_at _ _ db h in
      let r = idle_lines station.timezone ended versions fresh c.started_at (some i.started_at) in
      let (ls1, db1, e, h2) = bind-ok (from_idle r) _ db h1 in
      let (ls2, db2, e', h3) = bind-ok (interval_lines now fresh c station versions is) _ db1 h2 in
      let (s1, a1) =
        from_idle-Made fresh r db db1
          (λ l q. idle_lines-OfInvoice station.timezone ended versions fresh _ _ q) e in
      let (s2, a2) = interval_lines-Made is db1 db2 e' in
      (
        s1 ∙ s2 ∙ ok_state h3,
        subst (All (OfInvoice fresh)) (ok_value h3) (All-++ fresh ls1 ls2 a1 a2),
      )

  all_idle_lines-Made :
      (b : Bool) (end : ℕ) (is : List OccupationInterval) {ls : List InvoiceLine} (db db' : Db)
      → all_idle_lines now fresh b c station end versions is db ≡ ok (ls, db')
      → Made fresh db db' ls
  all_idle_lines-Made true end is db db' h = interval_lines-Made is db db' h
  all_idle_lines-Made false end is db db' h =
      from_idle-Made fresh _ db db'
        (λ l q. idle_lines-OfInvoice station.timezone end versions fresh _ _ q) h

-- The invoice that was added, with its lines.
pub record Created (fresh : ℕ) (c : ChargingSession) (v : Invoice) (db db' : Db) : Type 0 where
  pub lines : List InvoiceLine
  pub tariffs : List TariffVersion
  pub after : db' ≡ record db {
    tariffs = tariffs;
    invoices = v ∷ db.invoices;
    invoice_lines = lines ++ db.invoice_lines;
  }
  pub of_invoice : All (OfInvoice fresh) lines
  pub total : lines_total lines ≡ v.total_vnd
  pub numbered : v.id ≡ fresh
  pub session : v.session_id ≡ c.id
  pub owner : some v.driver_id ≡ c.driver_id
  pub only : find_invoice c.id db.invoices ≡ none
  pub low : pos 0 ≤ℤ v.total_vnd
  pub high : v.total_vnd ≤ℤ max_vnd

is_some-none : {A : Type 0} (o : Option A) → is_some o ≡ false → o ≡ none
is_some-none none h = refl
is_some-none (some a) h = cc

-- An invoice added to tables of which only the tariffs had changed.
total_lines-Created :
    (now fresh : ℕ) (c : ChargingSession) (driver station : ℕ) (ls : List InvoiceLine) {v : Invoice}
    (db db1 db' : Db)
    → OnlyTariffs db db1
    → All (OfInvoice fresh) ls
    → c.driver_id ≡ some driver
    → total_lines now fresh c driver station ls db1 ≡ ok (v, db')
    → Created fresh c v db db'
unfolding total_lines insert_invoice
total_lines-Created now fresh c driver station ls {v} db db1 db' (ts, same) of owner h =
    let total = lines_total ls in
    let made : Invoice = record {
      id = fresh;
      session_id = c.id;
      driver_id = driver;
      station_id = station;
      total_vnd = total;
      rule = rule_of now fresh (c.billing_lifecycle_version == 1);
    } in
    let (over, h1) = raise_if-ok (ltb_ℤ max_vnd total || any_overflow ls) _ _ db1 h in
    let (fits, h2) =
      raise_if-ok (is_some (find_invoice c.id db1.invoices) || ltb_ℤ total (pos 0)) _ _ db1 h1 in
    let (whole, h3) = raise_if-ok (any_broken ls) _ _ db1 h2 in
    let free : find_invoice c.id db1.invoices ≡ none = is_some-none _ (ground arith) in
    let is : made ≡ v = ok_value h3 in
    subst (λ x. Created fresh c x db db') is
      record {
        lines = ls;
        tariffs = ts;
        after =
            sym (ok_state h3)
            ∙ ap
                (λ (x : Db). record x {
                  invoices = made ∷ x.invoices;
                  invoice_lines = ls ++ x.invoice_lines;
                })
                same;
        of_invoice = of;
        total = refl;
        numbered = refl;
        session = refl;
        owner = sym owner;
        only = subst (λ (x : Db). find_invoice c.id x.invoices ≡ none) same free;
        low = ground arith;
        high = ground arith;
      }

from_segments-same :
    (r : Raises (List Segment)) {ss : List Segment} (db db' : Db)
    → from_segments r db ≡ ok (ss, db')
    → db ≡ db'
from_segments-same (Outcome.ok l) db db' h = ok_state h
from_segments-same (Outcome.err e) db db' h = cc

invoice_session-Created :
    (now fresh : ℕ) (c : ChargingSession) (end driver : ℕ) (station : Station) {v : Invoice}
    (db db' : Db)
    → c.driver_id ≡ some driver
    → invoice_session now fresh c end driver station db ≡ ok (v, db')
    → Created fresh c v db db'
unfolding invoice_session
invoice_session-Created now fresh c end driver station {v} db db' owner h =
    let (readings, db1, e1, h1) = bind-ok (meter_values c end) _ db h in
    let (is, db2, e2, h2) = bind-ok (occupation_if (c.billing_lifecycle_version == 1) c) _ db1 h1 in
    let (daily, db3, e3, h3) =
      bind-ok (daily_tariffs now true station c.started_at (billing_end_of c end is)) _ db2 h2 in
    let cut = chia_doan station.timezone c.started_at end readings (frames_on daily) in
    let (segments, db4, e4, h4) = bind-ok (from_segments cut) _ db3 h3 in
    let (_, h5) =
      raise_if-ok (not (eqb_ℤ (energy_total segments) (used_energy readings))) _ _ db4 h4 in
    let (idle, db5, e5, h6) =
      bind-ok
        (all_idle_lines now fresh (not (c.billing_lifecycle_version == 0)) c station end
          daily.versions is)
        _ db4 h5 in
    let (s5, of_idle) =
      all_idle_lines-Made now fresh c station daily.versions _ end is db4 db5 e5 in
    let before : db ≡ db2 = meter_values-same c end db db1 e1 ∙ occupation_if-same _ c db1 db2 e2 in
    let later : db3 ≡ db5 = from_segments-same cut db3 db4 e4 ∙ s5 in
    let marks : OnlyTariffs db db5 =
      subst (λ x. OnlyTariffs x db5) (sym before)
        (subst (OnlyTariffs db2) later
          (daily_tariffs-OnlyTariffs now true station c.started_at _ db2 db3 e3)) in
    total_lines-Created now fresh c driver station.id (map (energy_line fresh) segments ++ idle) db
      db5 db' marks (All-++ fresh _ idle (energy_line-OfInvoice fresh segments) of_idle) owner h6

pub create_invoice-Created :
    (now fresh : ℕ) (c : ChargingSession) (end : ℕ) {v : Invoice} (db db' : Db)
    → create_invoice now fresh c end db ≡ ok (v, db')
    → Created fresh c v db db'
unfolding create_invoice
create_invoice-Created now fresh c end {v} db db' h =
    let ((i, point), _, h1) = or_raise-ok (station_and_point c db) _ _ db h in
    let (_, h2) = raise_if-ok (not (point == c.charge_point_id)) _ _ db h1 in
    let (driver, owner, h3) = or_raise-ok c.driver_id _ _ db h2 in
    let (_, h4) = raise_if-ok (not (text_eq c.authorization_status (codes "Accepted"))) _ _ db h3 in
    let (station, _, h5) = or_raise-ok (find_station i db.stations) _ _ db h4 in
    let (_, h6) = raise_if-ok (leb end c.started_at) _ _ db h5 in
    invoice_session-Created now fresh c end driver station db db' owner h6
