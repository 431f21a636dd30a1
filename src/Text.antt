-- ===== src/Text.antt =====
-- What the backend uses of Go's text functions: strconv.ParseUint and Atoi, fmt.Sscanf and Sprintf
-- with "%d", and time.Parse and Time.Format with the layouts of dates.
pub mod Numbers
pub mod Dates
pub mod Spaces
pub mod Civil
pub mod Integers
