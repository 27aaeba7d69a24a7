-- ===== src/Commands/Registry/Answers.antt =====
-- The exceptions of src/commands/registry.cpp, which are those of the log behind a durable command.
use distributed_data_store.Prelude.{◌≡◌, Option, none, some}
use distributed_data_store.Store.{Store}
use distributed_data_store.Persistence.Result.{Result, ok, err, Error, not_open, io_error}
use distributed_data_store.Persistence.Wal.{WalWriter}
use distributed_data_store.Persistence.Engine.{Engine}
use distributed_data_store.Protocol.RespValue.{RespValue}
use distributed_data_store.Commands.Registry.{Reply}

-- The engine, if there is one, has its writer: it was not abandoned.
abbrev pub HasWriter : Option Engine → Type 0
HasWriter none = Unit
HasWriter (some e) = (wal : WalWriter) × (e.wal ≡ some wal)

-- The exceptions of WalWriter::append and WalWriter::sync.
abbrev pub IsLogError : Error → Type 0
IsLogError not_open = Unit
IsLogError io_error = Unit
IsLogError _ = ⊥

-- A reply, or an exception of the log, and then with the store as it was. The engine has its
-- writer in both cases.
abbrev pub IsAnswer : Store → Reply → Type 0
IsAnswer s (ok response, after) = HasWriter after.persistence
IsAnswer s (err e, after) = IsLogError e × (after.store ≡ s) × HasWriter after.persistence

-- There is such an answer.
abbrev pub Answered : Store → Option Reply → Type 0
Answered s result = (r : Reply) × (result ≡ some r) × IsAnswer s r

abbrev AllAnswers : Store → Option Reply → Type 0
AllAnswers s none = Unit
AllAnswers s (some r) = IsAnswer s r

-- What the log returns to a durable command.
abbrev IsLogged : Result (Unit {0}) → Type 0
IsLogged (ok u) = Unit
IsLogged (err e) = IsLogError e
