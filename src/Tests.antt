-- ===== src/Tests.antt =====
-- Each theorem of the results at concrete data.
mod Keys
mod Pages
mod Loading
mod Lods
mod Records
mod Infos
mod Queries
mod Columns
mod Ranges
mod Points
