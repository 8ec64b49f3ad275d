-- ===== src/Webhook.antt =====
-- Webhooks: enqueueing of deliveries and their dispatch (apps/cms/server/utils/webhook*.ts).
pub mod Enqueue
pub mod Backoff
pub mod Worker
pub mod WorkerLaws
pub mod WorkerRuns
pub mod Tick
mod Tests
