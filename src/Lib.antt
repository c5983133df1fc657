-- ===== src/Lib.antt =====
-- A model of the database application, and the theorems that hold of it.
--
-- The application keeps astronomical catalogs in layers. Layer 0 has the uploaded records; each has
-- at most one crossmatch result, which names candidate objects (PGC numbers), and gets a number when
-- it is submitted. Layer 1 has the measurements of the records, by catalog. Layer 2 has one row for
-- each number and catalog, which the import tasks aggregate from layer 1. Changing the number of a
-- record dates the numbers concerned, and an import reads the numbers that were dated after the last
-- update of its catalog.
--
--   Base        shared names, Boolean tests, lists and dictionaries
--   Containers  app/lib/containers: group_by, read_batches
--   Layer0      app/data/repositories/layer0: the tables (Db), crossmatch metadata; Layer0.Records
--               has the operations on records, Layer0.Merge those that set numbers by hand, with
--               app/adminapi/domain/pgc.py. Assign, Assigned and Submit are about submitting
--               records, Merged is about merges.
--   Layer1      app/data/repositories/layer1.py: the queries of the import; Saving has its writes,
--               with app/adminapi/domain/layer1_write.py, and Saved is about them; ByRecord has its
--               queries by record
--   Tasks       app/tasks: the import tasks of layer 2 and the orphan cleanup, with the writes of
--               app/data/repositories/layer2/repository.py
--   Crossmatch  app/adminapi/domain/crossmatch.py: setting results, submitting records and
--               showing one, and get_processed_records of layer 0
--   Search      app/data/repositories/layer2/filters.py and the statement of a batch of searches in
--               repository.py; Driving is about the choice of the joined table, Placeholders and
--               Statement are about the parameters; Objects has query_pgc of repository.py, and
--               Queried is about it; Catalogs has resolve_query_catalogs of
--               app/dataapi/domain/parameterized_query.py
--   Auth        app/lib/auth/authenticator.py, app/adminapi/domain/auth.py and
--               app/lib/web/middlewares/auth.py: sessions and secured routes
--   Progress    get_table_progress of app/data/repositories/layer0/records.py
--   Audit       app/lib/audit/truncate.py
--   Tables      app/data/repositories/layer0/tables.py: the registry of uploaded tables (Registry),
--               fetch_records (Fetch); Described, Created, Kept, Patched, Others and Renamed are about the
--               metadata, Filtered, Triage and Statuses about the records that are shown
--   Upload      app/adminapi/domain/table_upload.py: the columns and the source of a request,
--               create_table and patch_table (Manager), add_data (Rows), get_records (Listing, with
--               the descriptions of columns in Schemas), and the columns of get_table (Presented).
--               Columns, Sources and Created are about creating, Patched, Changed, Steps and Settings
--               about patch_table, Again and Added about add_data, Listed about get_records.
--   Tests       sample tables, at which the theorems are applied
--
-- A table with a primary key is a dictionary by the key, in Db or as an argument; a statement is a
-- function of the tables. Operations that raise return a failure and no tables, as the transaction
-- is rolled back; creating a table, adding rows and importing several catalogs, which write in
-- several transactions, return the tables that are left. Times are numbers; `now` and the clock are
-- given. Reading in batches has fuel, which bounds the number of rounds: one more than the number
-- of keys is enough, since each round moves past a key. Numbers are natural numbers; the bound of
-- the column type is not modelled, since a number beyond it fails on the foreign key as well.
--
-- What is not under app is a parameter: the order of texts of the database, the order in which a
-- statement returns rows that its ORDER BY leaves open (the rows of one number in the queries of
-- the import: the order of the table's list stands for it),
-- the constraints of the tables of layer 1, hashes and operations of Python on texts, data
-- frames, the answers of ADS, meta.setparams, which writes comments as JSON, the types of the
-- database, and group_by, the units and the arithmetic of astropy. The hypotheses are that group_by
-- lists the groups of equal numbers in ascending order, that the types the program writes are types
-- of the database, that a comment is read as it was written, and that a unit is read back from its
-- text.
--
-- Not modelled: logging and printing, connections, HTTP handlers, the queries of raw tables and of
-- their lists, the objects that are built from the rows of a search, query_records
-- of layer 1, the data API but for the choice of catalogs, concurrent transactions.
pub mod Base
pub mod Containers
pub mod Layer0
pub mod Layer1
pub mod Tasks
pub mod Crossmatch
pub mod Search
pub mod Auth
pub mod Progress
pub mod Audit
pub mod Tables
pub mod Upload
pub mod Tests
