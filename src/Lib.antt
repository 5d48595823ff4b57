-- ===== src/Lib.antt =====
-- Verification of the CSMS backend, the central system of a network of electric
-- vehicle charging stations.  The Python code stands under src/modules; each
-- directory below it is a module with its own tables and services.  This
-- library translates the decision code of the modules to functions and proves
-- what makes it correct.
--
-- The parts and how they meet.  chia_doan cuts a charging session at the midnights
-- of its station and at the bands of its tariffs, and tien_dong rounds the charge
-- of each piece.  lap_hoa_don makes the one invoice of an ended session from these
-- lines and from the idle fee of tinh_phi_chiem_tru; chot_phien takes its total from
-- the driver's wallet by tru_vi; a queue of hints brings the sessions to it, and a scan
-- closes those that were left.
-- Every movement of money goes through ghi_so_cai, which appends to the ledger and
-- moves the cached balance in one transaction; so do the callbacks of a payment
-- gateway and the adjustments of an administrator.  A reconciliation
-- compares balances, ledger and invoices and locks a wallet that fails, in a run over
-- all wallets page by page; an administrator repairs and unlocks the wallet.  A balance that is too low keeps a driver
-- from charging.  The power of a site is shared by allocate_watts and that of a
-- station by phan_bo_cong_suat, which also stops sessions.  A tariff, and the
-- power limit of a station, is a list of bands that kiem_khung_gio and
-- kiem_khung_gio_cong_suat check to cover each minute of a day once.  tao_bieu_gia adds
-- a version of a tariff with these bands, and edit_tariff replaces one that begins after
-- today and that no invoice has marked as used.
--
--   Base                      lists, exact integers and texts
--   Billing/Money             src/modules/billing/money.py, tien_dong
--   Billing/IdleFee           src/modules/billing/idle_fee.py, tinh_phi_chiem_tru
--   Power/Allocation          src/modules/power/allocation.py, allocate_watts
--   Wallet/Tables             src/modules/wallet/models.py and topup_models.py:
--                             the rows, and the queries the services make
--   Wallet/Tx                 a database transaction as a function of the tables
--                             that returns a value with the new tables, or an error
--   Wallet/Uuid               the text of a UUID and its parser
--   Wallet/Service            src/modules/wallet/service.py, ghi_so_cai
--   Wallet/Debit              src/modules/wallet/service.py, tru_vi, and
--                             src/modules/wallet/provisioning.py
--   Wallet/Journal            src/platform/audit/service.py, ghi_nhat_ky
--   Wallet/Topup              src/modules/wallet/topup_webhook_service.py: the
--                             callbacks of a payment gateway
--   Wallet/Repair             src/modules/wallet/service.py, phuc_hoi_so_du_cache
--   Wallet/Reconcile          src/modules/wallet/reconciliation.py
--   Wallet/Administration     src/modules/wallet/administration.py
--   Wallet/Eligibility        src/modules/wallet/eligibility.py
--   Power/Engine              src/modules/stations/power_allocation_engine.py
--   Pricing/Bands             src/modules/pricing/bands.py and
--                             src/modules/stations/power_bands.py
--   Billing/Segmentation      src/modules/billing/segmentation.py
--   Billing/Tables            the rows of src/modules/billing/models.py,
--                             src/modules/charging/models.py, src/modules/pricing/models.py
--                             and src/modules/stations/models.py that an invoice needs
--   Pricing/Tariffs           src/modules/pricing/service.py, the tariff in force
--   Pricing/Versions          src/modules/pricing/service.py and creation.py, the versions of
--                             a tariff, and edit_tariff of src/modules/pricing/router.py
--   Billing/Invoicing         src/modules/billing/invoicing.py, lap_hoa_don, and
--                             the mark of a used tariff in src/modules/pricing/service.py
--   Billing/Closure           src/modules/billing/closure.py, chot_phien, the scan
--                             and the queue of ClosureRunner
--
-- How state and operations correspond.  A row is a record with the columns the
-- code reads; a table is a list of rows, the newest first; Db is the tables that a
-- transaction can see.  An operation of a service is a Tx: the raise of
-- an exception is an error value and leaves no tables, as the rollback of the
-- session does.  A row lock makes the transactions on one wallet follow one
-- another, so the body runs on a fixed Db; what other transactions commit between
-- the first lookup of a key and the insert is the function arrive, an argument
-- of ghi_so_cai.  It ranges over every change that the locks held at that point
-- admit (Wallet.Service.Arrival).
--
-- Numbers.  Python's integers are unbounded and the model's are ℤ over the
-- native ℕ, so nothing wraps; the bounds of a BIGINT (-2^63 to 2^63-1 VND) are
-- tests of the code.  The decimal energy of tien_dong is a numerator over a
-- denominator; readings and segments count millionths of a Wh, as their columns do, and
-- an instant is a count of microseconds.
--
-- Fuel.  allocate_watts loops while some demand is unmet; the loop gets one unit
-- of fuel for each demand, which is enough since each turn settles a demand or
-- ends, and the theorem on it says that a result is returned.  The two loops of
-- phan_bo_cong_suat get one unit for each session, since each turn stops a session or
-- settles one, and the theorem on them says that the engine returns.
--
-- The loop of _idle_lines gets one unit for each minute that it bills, since each turn
-- bills a minute or more, and the theorem on it says that it returns.  The loop over
-- the dates of a session in chia_doan gets one unit for each date.  The scan of
-- closure.py takes a unit for each page: the cursor grows with each page and stays
-- below the greatest identifier, which the identity column bounds by 2147483647.  The
-- pages of run_reconciliation take a unit each too, one more than there are wallets.
--
-- Not modelled: reservations, charging sessions while they run, the OCPP messages,
-- alerts, notices to drivers, identity, accounting, reporting and privacy; HTTP routers
-- and their schemas, SQL and the migrations, background schedulers and the screens of
-- the frontend, which move values between the network, the database and the functions
-- above.
pub mod Base
pub mod Billing
pub mod Power
pub mod Pricing
pub mod Wallet
