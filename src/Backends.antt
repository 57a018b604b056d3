-- ===== src/Backends.antt =====
-- pkg/backends: what each backend's `GetValues` and `WatchPrefix` make of the answers of the
-- client library that it calls.
pub mod Tls
pub mod Env
pub mod Etcd
pub mod Consul
pub mod Ssm
pub mod File
pub mod Vault
pub mod Zookeeper
pub mod Dynamodb
pub mod Choice
pub mod Redis
