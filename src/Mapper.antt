-- ===== src/Mapper.antt =====
-- internal/mapper: from the rows of Bear's database to the hub's records.
pub mod Date
pub mod BearRows
pub mod Convert
