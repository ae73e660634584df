-- ===== src/Api.antt =====
-- The objects of the API server: api/azure.com/v1alpha1, and of the Kubernetes types that they stand
-- on the fields that the program reads or writes. String enumerations stay texts, as in the source,
-- since an object may hold any text there, the empty one included.
mod Meta
mod Process
mod Deployment
pub use Meta.*
pub use Process.*
pub use Deployment.*
