-- ===== src/Registrar.antt =====
-- pkg/registrar/registrar.go: the processing of REGISTER over the database of bindings.
pub mod Binding
pub mod Register
pub mod Table
pub mod Rows
pub mod Refresh
