-- ===== src/Coverage.antt =====
-- Merging of coverage reports, python/wake_sol/coverage.py.
pub mod Dict
pub mod Text
pub mod Lcov
pub mod TextBack
pub mod LinesBack
pub mod RoundTrip
pub mod Sums
pub mod Parsed
pub mod Reports
pub mod ReportView
pub mod Builds
pub mod Merging
pub mod SameBuild
