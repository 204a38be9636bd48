-- ===== src/Cli.antt =====
-- cli/commands.c: the command-line tool's words and how they become calls of the library.
pub mod Text
pub mod Words
pub mod Table
pub mod Numbers
pub mod Bounds
pub mod Rounds
pub mod Accepted
pub mod Spellings
pub mod Typed
pub mod Runs
pub mod Printed
pub mod Ran
pub mod Help
pub mod Options
pub mod Main
