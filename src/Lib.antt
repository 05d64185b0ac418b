-- ===== src/Lib.antt =====
-- ClawFS: a multi-tenant, content-addressed file system with named references, shares, multipart
-- uploads and quotas, behind an HTTP API. Contents are stored once under their SHA-256 digest, a
-- tenant's paths are references to digests, and a database keeps the rows of both.
--
-- The parts, and the files that model them:
--   clawfs/db.py        the six tables: Db, with a row beside its primary key; Db/Rows has updates,
--                       Db/Migrate `make_engine` and `_migrate`
--   clawfs/core.py      the class ClawFS: Core. Core/Paths has `_tpath` and `_untpath`, Core/Blobs
--                       `put_blob`, `get_blob` and `_bump`, Core/Refs the methods on refs,
--                       Core/Quota `_enforce_quota`, `_link_inc`, `_link_dec` and `get_usage`,
--                       Core/Gc `gc`, Core/Shares and Core/Tenants the rest
--   clawfs/storage.py   the class Storage: Storage, with what its clients rely on (IsLawful), and
--                       the class LocalStorage: Storage/Local, with its paths in Storage/Local/Path;
--                       AzureBlobStorage, S3Storage and GCSStorage: Storage/Remote, over the SDKs'
--                       clients in Storage/Remote/Clients; their constructors and `_client_lazy`
--                       are in Storage/Config
--   clawfs/factory.py   `make_storage`: Factory
--   clawfs/uploads.py   the class UploadManager: Uploads, with the names of part files in
--                       Uploads/Names, the loops that stream bytes in Uploads/Merge, and
--                       `complete` in Uploads/Complete
--   clawfs/auth.py      bearer tokens: Auth, with the answers of Http
--   clawfs/api.py       the handlers: Api, with `_resolve_tenant` and `_maybe_auth` in Api/Tenancy,
--                       the counters and their text in Api/Metrics, and the routes, with the
--                       servers that requests lead to, in Api/Requests; what `create_app` starts
--                       with, and how the command lines open their file system, is in Setup
--   clawfs/admin.py     the commands of operators: Admin, with `parse_size` and `fmt_size` in
--                       Admin/Sizes and what is printed in Admin/Printing
--   clawfs/cli.py       the commands of users: Cli
-- The other files: Prelude (lists, tables, Boolean equality, integers), Text (the methods of
-- `str`, decimal numbers), Result (exceptions), App (methods that read and write a world and may
-- raise), Tests (concrete worlds).
--
-- A world is the database, the state of the storage backend and the scratch directories of the
-- uploads. A method is a function from a world to a result and a world. `session` models a `with
-- Session(...)` block: an exception before the commit undoes the rows and not what was written to
-- the backend. The handlers and the commands call the methods of Core and Uploads, and both parts
-- share the tables and the backend.
--
-- The invariants. Core/Refcount has IsCounted: every blob's count of references is the number of
-- refs with its hash. Core/Accounting has IsAccounted: every tenant's used bytes and objects are
-- the sums over its links. Core/Accounting/Limits has IsWithin: no tenant is past its limits.
-- Core/Contents has IsStored: every blob's contents are in the backend, under their digest. The
-- abstract view, `seen` in Core/Contents/Reads, is the map from stored paths to contents.
--
-- Core/Refs/Named has IsNamed: every ref is stored under its tenant.
--
-- Api/Requests/Kept carries a predicate that every method keeps over to every request, served or
-- refused; Api/Requests/Keeps, Api/Requests/Metered and Api/Requests/Listed apply it to the
-- invariants.
--
-- What is outside: `hashlib` is a parameter (Hasher), of which only the form of a digest is used;
-- that two contents have different digests is a hypothesis (NoCollision) on the bytes that are
-- put. The backend is a parameter too; LocalStorage and the remote backends are some. The SDKs'
-- clients are records of calls, with the documented behaviour of a container in IsAzure, IsS3 and
-- IsGcs. Floats are a parameter (Floats), of which IsDouble says that whole numbers up to 2 ^ 53 are
-- exact, and so are `repr` and what `argparse` makes of a command line. Random tokens, the time,
-- the uptime, the environment variables and the `LIKE` of the database are arguments.
--
-- Bounds and fuel: times are microseconds since `datetime.min`, with the overflow of `datetime`.
-- Reading a part by buffers runs on fuel, one more than its bytes, and counting digits on fuel, one
-- more than the number; each round takes a byte or a digit. Numbers of rows and bytes are not
-- bounded. `str.strip`, `str.lower`, `str.upper` and `\d` are those of the ASCII range.
--
-- Not modelled: the options that `build_parser` and click's decorators declare, which are data for
-- those libraries; the details of error answers; failures of the disk; keys of LocalStorage
-- that name a directory; and requests that run at
-- once: each runs on its own world from start to end, but for the sessions of `put_ref` with a
-- collection between them, in Core/Contents/Race. The commands and methods of the remote
-- backends run on a client that is there.
pub mod Prelude
pub mod Text
pub mod Result
pub mod Db
pub mod App
pub mod Storage
pub mod Factory
pub mod Setup
pub mod Admin
pub mod Cli
pub mod Core
pub mod Uploads
pub mod Http
pub mod Auth
pub mod Api
pub mod Tests
