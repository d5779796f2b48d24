-- ===== src/Machines/Checkpoints.antt =====
-- The checkpoint of the operating hours: backend/src/ticketing/equipment/predictive-engine.cron.ts.
use proman_edge_ace.Env.{Env}
