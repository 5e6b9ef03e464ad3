-- ===== src/Ctlog.antt =====
-- pkg/ctlog: certificate transparency. A timestamp of a log (SCT), its binary form, lists of them,
-- the pre-certificate, and the submission to a log. A buffer that the code fills from the front to the
-- back without a gap is the concatenation of its parts. JSON, base64 and the HTTP client are
-- parameters.
pub mod Sct
pub mod SctList
pub mod Precert
pub mod Client
pub mod MockLog
